-- ===== src/Handlers/Documents/Gone.antt =====
-- What the RPCs answer behind the RPC `DeleteDocument` of the same id.
use mathlib.Core.Path.{subst}
use text.Mathlib.Text.{◌==◌}
use vector_sync.Base.{String, ◌≡◌, refl, sym, ap, true, false, Bool, [], ◌∷◌, arith, if◌then◌else◌}
use vector_sync.Base.Int.{ℤ, pos, is_zero}
use vector_sync.Base.Exec.{
  Error, no_rows, message, lit, str, Result, ok, err, pure, new_error, refuse_if, ◌>>◌, continue,
  continue-ok, ok-parts,
}
use vector_sync.Services.Interfaces.{DocumentRepository, Float32, Service, on_repo}
use vector_sync.Services.Documents.{get_document, delete_document, missing_error, or_missing}
use vector_sync.Db.Rows.{Statements, then_result, get_by_id, delete_by_id}
use vector_sync.Db.Repository.{Driver, Codec, document_repository}
use vector_sync.Handlers.Metadata.{Protobuf}
use vector_sync.Handlers.Documents.{Deleted, handle_get, handle_delete}

-- What PostgreSQL promises of a deletion by an id that it answers, with the number of the rows: there is no
-- row of the id behind it, so the id is not found, and deleting again affects no row.
pub record DeletesRows {W : Type 0} (statements : Statements W) : Type 0 where
  pub gone :
      (id : String) (n : ℤ) (w w' : W)
      → statements.delete_row id w ≡ (ok (ok n), w')
      → ((statements.select_by_id id w').0 ≡ err no_rows)
        × ((statements.delete_row id w').0 ≡ ok (ok (pos 0)))

abbrev pub not_found : String → Error
not_found id = message (lit "document_id " ∷ str id ∷ lit " not found" ∷ [])

module _ {W : Type 0} (db : Statements W) where
  -- A deletion that succeeds has affected a row.
  delete_by_id-ok :
      (id : String) (w w' : W)
      → delete_by_id db id w ≡ (ok tt, w')
      → (n : ℤ) × (db.delete_row id w ≡ (ok (ok n), w'))
  unfolding delete_by_id
  delete_by_id-ok id w w' h = affected (db.delete_row id w) h
    where
      affected :
          (q : Result (Result ℤ) × W)
          → ◌≡◌ {A = Result (Unit {0}) × W}
              (
                then_result
                    (q.0)
                    (λ a. then_result a λ n. if is_zero n then err no_rows else ok tt),
                q.1,
              )
              (ok tt, w')
          → (n : ℤ) × (q ≡ (ok (ok n), w'))
      affected (err e, v) k = ground arith
      affected (ok (err e), v) k = ground arith
      affected (ok (ok n), v) k = (n, ap (λ x. (ok (ok n), x)) (ground arith))

err-continue :
    {A B S : Type 0} (r : Result A × S) (f : A → S → Result B × S) (e : Error)
    → r.0 ≡ err e
    → (continue r f).0 ≡ err e
err-continue (ok a, s) f e h = ground arith
err-continue {A = A} {B = B} (err x, s) f e h =
    ap (λ q. (continue {S = _} {A = A} {B = B} (q, s) f).0) h

-- A call of the repository that finds no row, with its error converted.
or_missing-not_found :
    {A W : Type 0} (id text : String) (t : Service W) (q : Result A × W)
    → q.0 ≡ err no_rows
    → (or_missing "document_id " id text (q.0, record t { world = q.1 })).0 ≡ err (not_found id)
unfolding missing_error
or_missing-not_found id text t (ok a, w) e = ground arith
or_missing-not_found {A = A} {W = W} id text t (err x, w) e =
    ap
      (λ r.
        (or_missing {A = A} {S = Service W} "document_id " id text (r, record t { world = w })).0)
      e

module _ {F V W : Type 0} (documents : DocumentRepository F V W) where
  delete_document-ok :
      (id : String) (s t : Service W)
      → delete_document documents id s ≡ (ok tt, t)
      → ((id == "") ≡ false)
        × (w : W) × (documents.delete_by_id id s.world ≡ (ok tt, w))
        × (t.world ≡ w)
  unfolding delete_document
  delete_document-ok id s t h = tested (id == "") h
    where
      called :
          (q : Result (Unit {0}) × W)
          → or_missing "document_id " id "failed to delete document" (q.0, record s { world = q.1 })
            ≡ (ok tt, t)
          → (w : W) × (q ≡ (ok tt, w)) × (t.world ≡ w)
      called (ok u, w) k = (w, refl, ap (λ r. (r.1).world) (sym k))
      called (err x, w) k = ground arith

      tested :
          (b : Bool)
          → (refuse_if b (new_error "document_id is required") >> λ s'.
                or_missing "document_id " id "failed to delete document"
                  (on_repo (documents.delete_by_id id) s'))
              s
            ≡ (ok tt, t)
          → (b ≡ false) × (w : W) × (documents.delete_by_id id s.world ≡ (ok tt, w)) × (t.world ≡ w)
      tested true k = ground arith
      tested false k =
          let (w, e, q) = called (documents.delete_by_id id s.world) k in (refl, w, e, q)

  get_document-not_found :
      (id : String) (t : Service W)
      → (id == "") ≡ false
      → (documents.get_by_id id t.world).0 ≡ err no_rows
      → (get_document documents id t).0 ≡ err (not_found id)
  unfolding get_document
  get_document-not_found id t n e =
      rw n (or_missing-not_found id "failed to fetch document" t (documents.get_by_id id t.world) e)

  delete_document-not_found :
      (id : String) (t : Service W)
      → (id == "") ≡ false
      → (documents.delete_by_id id t.world).0 ≡ err no_rows
      → (delete_document documents id t).0 ≡ err (not_found id)
  unfolding delete_document
  delete_document-not_found id t n e =
      rw n (
        or_missing-not_found id "failed to delete document" t (documents.delete_by_id id t.world) e)

module _ {F V J W : Type 0} (float : Float32 F) (codec : Codec F V J) (db : Driver F J W)
    (laws : DeletesRows db.statements) where
  read_back :
      (id : String) (w w' : W)
      → delete_by_id db.statements id w ≡ (ok tt, w')
      → ((get_by_id codec.parse codec.unmarshal db.statements id w').0 ≡ err no_rows)
        × ((delete_by_id db.statements id w').0 ≡ err no_rows)
  unfolding get_by_id delete_by_id
  read_back id w w' h =
      let (n, e) = delete_by_id-ok db.statements id w w' h in
      let (found, affected) = laws.gone id n w w' e in (rw found refl, rw affected refl)

  -- Right behind a `DeleteDocument` that succeeds, `ListDocument` and `DeleteDocument` of the id answer that it is not
  -- found. It asks that PostgreSQL deletes the row.
  pub handle_delete-handle_get :
      {S M T : Type 0} (protobuf : Protobuf S M V T) (now later : T) (id : String) (a : Deleted T)
      (s t : Service W)
      → handle_delete (document_repository float codec db) now id s ≡ (ok a, t)
      → ((handle_get protobuf (document_repository float codec db) id t).0 ≡ err (not_found id))
        × ((handle_delete (document_repository float codec db) later id t).0 ≡ err (not_found id))
  unfolding handle_delete handle_get
  handle_delete-handle_get protobuf now later id a s t h =
      let (u, v, e, k) =
        continue-ok (delete_document (document_repository float codec db) id s)
          (λ _. pure (record { id = id; deleted_at = now })) a t h in
      let (n, w, q, p) = delete_document-ok (document_repository float codec db) id s v e in
      let (found, affected) = read_back id s.world w q in
      let same = (ok-parts (record { id = id; deleted_at = now }) a v t k).1 in
      let answers : Service W → Type 0 = λ x.
        ((handle_get protobuf (document_repository float codec db) id x).0 ≡ err (not_found id))
        × ((handle_delete (document_repository float codec db) later id x).0
            ≡ err (not_found id)) in
      subst answers same (
        err-continue _ _ _
            (get_document-not_found (document_repository float codec db) id v n (rw p found)),
        err-continue _ _ _
            (delete_document-not_found (document_repository float codec db) id v n (rw p affected)),
      )
