-- ===== src/Services/Documents/Batch/Dimensions.antt =====
-- Which batches reach the repository.
use text.Mathlib.Text.{◌==◌}
use text.Mathlib.TextEquality.{eq_iff}
use mathlib.Core.Path.{subst}
use mathlib.Core.Bool.{false≢true}
use vector_sync.Base.{
  ℕ, ◌≤◌, ◌<◌, String, ◌≡◌, ◌≢◌, refl, sym, ◌∙◌, ◌⊎◌, inl, inr, true, false, List, [], ◌∷◌, arith,
  ltb, length, is_empty, All, Bool-cases,
}
use vector_sync.Base.Int.{ℤ, pos, eqb_ℤ, eqb_ℤ_iff}
use vector_sync.Base.Exec.{Error, Result, ok, err, Exec, continue, refuse_if, lift, ◌>>=◌, ◌>>◌}
use vector_sync.Models.{Document}
use vector_sync.Services.Interfaces.{CollectionRepository, DocumentRepository, Service, on_repo}
use vector_sync.Services.Collections.Checks.{Refused}
use vector_sync.Services.Documents.{get_collection_info}
use vector_sync.Services.Documents.Single.{Fails, Result-cases}
use vector_sync.Services.Documents.Batch.{
  check_dimensions, refuse_oversized, batch_insert, batch_delete,
}

-- Every vector has the dimension.
abbrev pub HaveDimension : {F V : Type 0} → ℤ → List (Document F V) → Type 0
HaveDimension d docs = All (λ doc. d ≡ pos (length doc.vector)) docs

check_dimensions-cases :
    {F V : Type 0} (d : ℤ) (docs : List (Document F V))
    → (HaveDimension d docs × (check_dimensions d docs ≡ ok tt))
      ⊎ ((¬ HaveDimension d docs) × Fails (check_dimensions d docs))
unfolding check_dimensions
check_dimensions-cases d [] = inl (tt, refl)
check_dimensions-cases d (x ∷ docs) = elim (Bool-cases (eqb_ℤ d (pos (length x.vector)))) [
  | inr n ↦ inr (λ h. false≢true (sym n ∙ (eqb_ℤ_iff d (pos (length x.vector))).1 (h.0)), rw n tt)
  | inl n ↦ elim (check_dimensions-cases d docs) [
    | inl (a, e) ↦ inl (((eqb_ℤ_iff d (pos (length x.vector))).0 n, a), rw n e)
    | inr (a, e) ↦ inr (λ h. a (h.1), rw n e)
  ]
]

Fails-Refused :
    {A B S : Type 0} (r : Result A) (f : A → S → Result B × S) (s : S)
    → Fails r
    → Refused (continue (r, s) f) s
Fails-Refused (ok a) f s h = absurd h
Fails-Refused (err e) f s h = refl

-- An id is given and 1 to 1000 entries.
abbrev pub IsBatch : {A : Type 0} → String → List A → Type 0
IsBatch id xs = (id ≢ "") × (1 ≤ length xs) × (length xs ≤ 1000)

length-is_empty : {A : Type 0} (xs : List A) → is_empty xs ≡ true → length xs ≡ 0
length-is_empty [] h = refl
length-is_empty (x ∷ xs) h = ground arith

length-nonempty : {A : Type 0} (xs : List A) → is_empty xs ≡ false → 1 ≤ length xs
length-nonempty [] h = ground arith
length-nonempty (x ∷ xs) h = omega arith

too_many : (n : ℕ) → ltb 1000 n ≡ true → 1000 < n
too_many n h = ground arith

few_enough : (n : ℕ) → ltb 1000 n ≡ false → n ≤ 1000
few_enough n h = ground arith

IsBatch-cases :
    {A S B : Type 0} (id : String) (xs : List A) (e₁ e₂ : Error) (m : Exec S B) (s : S)
    → (IsBatch id xs
        × ((refuse_if (id == "") e₁
                >> (refuse_if (is_empty xs) e₂ >> (refuse_oversized (length xs) >> m)))
              s
            ≡ m s))
      ⊎ ((¬ IsBatch id xs)
          × Refused
              ((refuse_if (id == "") e₁
                  >> (refuse_if (is_empty xs) e₂ >> (refuse_oversized (length xs) >> m)))
                s)
              s)
IsBatch-cases id xs e₁ e₂ m s = elim (Bool-cases (id == "")) [
  | inl n ↦ inr (λ h. h.0 ((eq_iff id "").0 n), rw n refl)
  | inr n ↦ elim (Bool-cases (is_empty xs)) [
    | inl v ↦ inr (λ h. omega (arith, h.1, length-is_empty xs v), rw (n, v) refl)
    | inr v ↦ elim (Bool-cases (ltb 1000 (length xs))) [
      | inl b ↦ inr (λ h. omega (arith, h.2, too_many (length xs) b), rw (n, v, b) refl)
      | inr b ↦ inl (
        (
          λ x. false≢true (sym n ∙ (eq_iff id "").1 x),
          length-nonempty xs v,
          few_enough (length xs) b,
        ),
        rw (n, v, b) refl,
      )
    ]
  ]
]

IsBatch-then :
    {A S B : Type 0} (P : Result B × S → Type 0) (id : String) (xs : List A) (e₁ e₂ : Error)
    (m : Exec S B) (s : S)
    → P (m s)
    → (IsBatch id xs
        × P (
            (refuse_if (id == "") e₁
                >> (refuse_if (is_empty xs) e₂ >> (refuse_oversized (length xs) >> m)))
              s))
      ⊎ ((¬ IsBatch id xs)
          × Refused
              ((refuse_if (id == "") e₁
                  >> (refuse_if (is_empty xs) e₂ >> (refuse_oversized (length xs) >> m)))
                s)
              s)
IsBatch-then P id xs e₁ e₂ m s p = elim (IsBatch-cases id xs e₁ e₂ m s) [
  | inl (b, e) ↦ inl (b, subst P (sym e) p)
  | inr (b, e) ↦ inr (b, e)
]

module _ {F V W : Type 0} (documents : DocumentRepository F V W)
    (collections : CollectionRepository V W) where
  -- How `BatchInsert` goes on behind the checks of the batch.
  abbrev pub Inserts :
      String
      → List (Document F V)
      → Service W
      → Result (ℕ × List (Document F V)) × Service W
      → Type 0
  Inserts id docs s r =
      ((e : Error) × (t : Service W) × (get_collection_info collections id s ≡ (err e, t))
        × (r ≡ (err e, t)))
      ⊎ ((d : ℤ) × (m : String) × (t : Service W) × (get_collection_info collections id s
            ≡ (ok (d, m), t))
          × (((¬ HaveDimension d docs) × Refused r t)
              ⊎ (HaveDimension d docs × (r ≡ on_repo (documents.batch_insert id docs) t))))

  insert_cases :
      (id : String) (docs : List (Document F V)) (s : Service W)
      → Inserts id docs s (
          (get_collection_info collections id >>= λ info.
          lift (check_dimensions (info.0) docs) >> on_repo (documents.batch_insert id docs))
            s)
  insert_cases id docs s = elim (Result-cases (get_collection_info collections id s)) [
    | inr (e, t, q) ↦ inl (e, t, q, rw q refl)
    | inl (info, t, q) ↦ elim (check_dimensions-cases (info.0) docs) [
      | inl (all, c) ↦ inr (info.0, info.1, t, q, inr (all, rw (q, c) refl))
      | inr (all, c) ↦ inr (
        info.0,
        info.1,
        t,
        q,
        inl (all, rw q (Fails-Refused (check_dimensions (info.0) docs) _ t c)),
      )
    ]
  ]

  -- `BatchInsert` refuses, and touches nothing, a batch without an id or not of 1 to 1000 documents. Any other goes
  -- to the repository, as one call and unchanged, when the collection is found and every
  -- vector has its dimension; else nothing is inserted.
  pub batch_insert_cases :
      (id : String) (docs : List (Document F V)) (s : Service W)
      → (IsBatch id docs × Inserts id docs s (batch_insert documents collections id docs s))
        ⊎ ((¬ IsBatch id docs) × Refused (batch_insert documents collections id docs s) s)
  unfolding batch_insert
  batch_insert_cases id docs s =
      IsBatch-then (Inserts id docs s) id docs _ _
        (get_collection_info collections id >>= λ info.
          lift (check_dimensions (info.0) docs) >> on_repo (documents.batch_insert id docs))
        s (insert_cases id docs s)

  -- `BatchDelete` refuses likewise, and hands any other batch to the repository, as one call, when the
  -- collection is found.
  pub batch_delete_cases :
      (id : String) (document_ids : List String) (s : Service W)
      → (IsBatch id document_ids
          × (batch_delete documents collections id document_ids s
              ≡ continue
                  (get_collection_info collections id s)
                  (λ _. on_repo (documents.batch_delete id document_ids))))
        ⊎ ((¬ IsBatch id document_ids)
            × Refused (batch_delete documents collections id document_ids s) s)
  unfolding batch_delete
  batch_delete_cases id document_ids s =
      IsBatch-cases id document_ids _ _
        (get_collection_info collections id >>= λ _.
          on_repo (documents.batch_delete id document_ids))
        s
