-- ===== src/Db/Repository/Atomic.antt =====
-- The transaction of `BatchInsert`, on every path.
use mathlib.Core.Path.{subst}
use vector_sync.Base.{ℕ, ◌≡◌, refl, sym, ap, ◌∙◌, Bool, false, List, String, length}
use vector_sync.Base.Exec.{Error, Result, ok, err, wrap_result, Exec, pure, wrap, continue}
use vector_sync.Models.{Document}
use vector_sync.Services.Interfaces.{Float32}
use vector_sync.Db.Rows.{scan_rows}
use vector_sync.Db.Statements.{Piece, Arg}
use vector_sync.Db.Statements.Batch.{prepare, check_marshalled, batch_query, value_loop}
use vector_sync.Db.Repository.{Driver, Codec, insert_in_transaction, then_rollback, insert_batch}

-- What PostgreSQL promises of a transaction: `stored` is what the others see, and only a commit that
-- succeeds changes it.
pub record IsTransactional {F J W D : Type 0} (db : Driver F J W) (stored : W → D)
    (in_transaction : W → Bool) : Type 0 where
  pub begin_keeps : (w : W) → stored (db.begin w).1 ≡ stored w
  pub begin_fails :
      (w w' : W) (e : Error) → db.begin w ≡ (err e, w') → in_transaction w' ≡ in_transaction w
  pub set_local_keeps : (w : W) → stored (db.set_local w).1 ≡ stored w
  pub insert_keeps :
      (query : List Piece) (args : List (Arg F J)) (w : W)
      → stored (db.insert_rows query args w).1 ≡ stored w
  pub commit_fails : (w w' : W) (e : Error) → db.commit w ≡ (err e, w') → stored w' ≡ stored w
  pub rollback_keeps : (w : W) → stored (db.rollback w) ≡ stored w
  pub rollback_ends : (w : W) → in_transaction (db.rollback w) ≡ false

module _ {F J W D : Type 0} (db : Driver F J W) (stored : W → D) where
  -- The outcome for what was stored as `d`: after an error it is as before; a success stores what a
  -- commit stored that succeeded.
  abbrev pub Committed : {A : Type 0} → D → Result A × W → Type 0
  Committed d (err e, w') = stored w' ≡ d
  Committed d (ok a, w') =
      (before : W) × (after : W) × (db.commit before ≡ (ok tt, after))
      × (stored before ≡ d)
      × (stored w' ≡ stored after)

  step-Committed :
      {A B : Type 0} (r : Result A × W) (f : A → Exec W B) (d : D)
      → stored (r.1) ≡ d
      → ((a : A) (w : W) → Committed (stored w) (f a w))
      → Committed d (continue r f)
  step-Committed (ok a, w) f d e h = subst (λ (x : D). Committed x (f a w)) e (h a w)
  step-Committed (err x, w) f d e h = e

module _ {F V J W D : Type 0} (float : Float32 F) (codec : Codec F V J) (db : Driver F J W)
    (stored : W → D) (in_transaction : W → Bool)
    (laws : IsTransactional db stored in_transaction) where
  commit-Committed :
      (a : ℕ × List (Document F V)) (w : W)
      → Committed db stored
          (stored w)
          (continue (wrap "failed to commit batch insert" db.commit w) (λ _. pure a))
  commit-Committed a w = go (db.commit w) refl
    where
      go :
          (r : Result (Unit {0}) × W)
          → db.commit w ≡ r
          → Committed db stored
              (stored w)
              (continue (wrap_result "failed to commit batch insert" (r.0), r.1) (λ _. pure a))
      go (ok u, w') e = (w, w', e, refl, refl)
      go (err x, w') e = laws.commit_fails w w' x e

  insert-Committed :
      (docs : List (Document F V)) (w : W)
      → Committed db stored (stored w) (insert_in_transaction float codec db docs w)
  unfolding insert_in_transaction
  insert-Committed docs w =
      step-Committed db stored (wrap "failed to set synchronous_commit" db.set_local w) _ (stored w)
        (laws.set_local_keeps w)
        λ _ w₁.
          step-Committed db stored
            (
              check_marshalled 0 (
                  prepare codec.format codec.marshal codec.nil_json (db.schedule (length docs))
                    docs),
              w₁,
            )
            _ (stored w₁) refl
            λ prepped w₂.
              step-Committed db stored
                (db.insert_rows (batch_query docs) (value_loop docs prepped) w₂) _ (stored w₂)
                (laws.insert_keeps (batch_query docs) (value_loop docs prepped) w₂)
                λ rows w₃.
                  step-Committed db stored
                    (scan_rows codec.parse codec.unmarshal false (rows.0) (rows.1), w₃) _
                    (stored w₃) refl λ inserted. commit-Committed (length inserted, inserted)

  rollback-Committed :
      {A : Type 0} (r : Result A × W) (d : D)
      → Committed db stored d r
      → Committed db stored d (r.0, db.rollback (r.1))
  rollback-Committed (ok a, w) d (before, after, e, k, l) =
      (before, after, e, k, laws.rollback_keeps w ∙ l)
  rollback-Committed (err x, w) d k = laws.rollback_keeps w ∙ k

  -- Begun outside a transaction, a batch insert leaves no transaction open, on every path. When it
  -- returns an error, the stored documents are as before it; when it succeeds, they are what a commit
  -- stored that was given what was stored before. It asks that only a commit that succeeds
  -- changes what is stored and that a rollback ends the transaction.
  pub insert_batch-Committed :
      (id : String) (docs : List (Document F V)) (w : W)
      → in_transaction w ≡ false
      → (in_transaction ((insert_batch float codec db id docs w).1) ≡ false)
        × Committed db stored (stored w) (insert_batch float codec db id docs w)
  unfolding insert_batch
  insert_batch-Committed id docs w outside = go (db.begin w) refl
    where
      go :
          (r : Result (Unit {0}) × W)
          → db.begin w ≡ r
          → (in_transaction (
                (continue
                  (wrap_result "failed to begin transaction" (r.0), r.1)
                  (λ _.
                    then_rollback float codec db (insert_in_transaction float codec db docs))).1)
              ≡ false)
            × Committed db stored (stored w) (
                continue
                  (wrap_result "failed to begin transaction" (r.0), r.1)
                  (λ _. then_rollback float codec db (insert_in_transaction float codec db docs)))
      go (err x, w') e =
          (laws.begin_fails w w' x e ∙ outside, ap (λ p. stored (p.1)) (sym e) ∙ laws.begin_keeps w)
      go (ok u, w') e = (
        laws.rollback_ends ((insert_in_transaction float codec db docs w').1),
        subst
            (λ (x : D).
              Committed db stored x
                (then_rollback float codec db (insert_in_transaction float codec db docs) w'))
            (ap (λ p. stored (p.1)) (sym e) ∙ laws.begin_keeps w)
            (rollback-Committed (insert_in_transaction float codec db docs w') (stored w')
              (insert-Committed docs w')),
      )
