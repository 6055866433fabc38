-- ===== src/Services/Documents/Single.antt =====
-- What `CreateDocument` and `UpsertDocument` hand to the repository.
use text.Mathlib.Text.{◌==◌}
use text.Mathlib.TextEquality.{eq_iff}
use mathlib.Core.Bool.{false≢true}
use vector_sync.Base.{
  ℕ, ◌+◌, String, ◌≡◌, ◌≢◌, refl, sym, ◌∙◌, ◌⊎◌, inl, inr, true, false, List, [], ◌∷◌, length,
  is_empty, All, Bool-cases,
}
use vector_sync.Base.Int.{ℤ, pos, eqb_ℤ, eqb_ℤ_iff}
use vector_sync.Base.Text.{Bytes}
use vector_sync.Base.Exec.{Error, new_error, Result, ok, err, Exec, wrap, refuse_if, ◌>>=◌, ◌>>◌}
use vector_sync.Models.{Metadata}
use vector_sync.Services.Interfaces.{
  CollectionRepository, DocumentRepository, Float32, Service, on_repo,
}
use vector_sync.Services.Collections.{or_empty}
use vector_sync.Services.Collections.Checks.{Refused, Refused-continue}
use vector_sync.Services.Documents.{
  get_collection_info, check_values, check_length, check_vector, create_document, upsert_document,
}

-- A value is neither NaN nor infinite.
abbrev pub IsFinite : {F : Type 0} → Float32 F → F → Type 0
IsFinite float x = (float.is_nan x ≡ false) × (float.is_inf x ≡ false)

-- A vector of the collection's dimension, each value of which is finite.
abbrev pub IsFitting : {F : Type 0} → Float32 F → ℤ → List F → Type 0
IsFitting float d vector = (pos (length vector) ≡ d) × All (IsFinite float) vector

-- The error of the loop, if there is one.
abbrev pub Fails : {A : Type 0} → Result A → Type 0
Fails (ok a) = ⊥
Fails (err e) = Unit {0}

pub Result-cases :
    {A S : Type 0} (r : Result A × S)
    → ((a : A) × (s : S) × (r ≡ (ok a, s))) ⊎ ((e : Error) × (s : S) × (r ≡ (err e, s)))
Result-cases (ok a, s) = inl (a, s, refl)
Result-cases (err e, s) = inr (e, s, refl)

pub check_values-cases :
    {F : Type 0} (float : Float32 F) (what : String) (i : ℕ) (xs : List F)
    → (All (IsFinite float) xs × (check_values float what i xs ≡ ok tt))
      ⊎ ((¬ All (IsFinite float) xs) × Fails (check_values float what i xs))
unfolding check_values
check_values-cases float what i [] = inl (tt, refl)
check_values-cases float what i (x ∷ xs) = elim (Bool-cases (float.is_nan x)) [
  | inl n ↦ inr (λ h. false≢true (sym (h.0.0) ∙ n), rw n tt)
  | inr n ↦ elim (Bool-cases (float.is_inf x)) [
    | inl f ↦ inr (λ h. false≢true (sym (h.0.1) ∙ f), rw (n, f) tt)
    | inr f ↦ elim (check_values-cases float what (i + 1) xs) [
      | inl (a, e) ↦ inl (((n, f), a), rw (n, f) e)
      | inr (a, e) ↦ inr (λ h. a (h.1), rw (n, f) e)
    ]
  ]
]

pub check_vector-cases :
    {F S : Type 0} (float : Float32 F) (what : String) (d : ℤ) (vector : List F) (s : S)
    → (IsFitting float d vector × (check_vector float what d vector s ≡ (ok tt, s)))
      ⊎ ((¬ IsFitting float d vector) × Refused (check_vector float what d vector s) s)
unfolding check_vector check_length
check_vector-cases {F} {S} float what d vector s =
    elim (Bool-cases (eqb_ℤ (pos (length vector)) d)) [
      | inl e ↦ elim (check_values-cases float what 0 vector) [
        | inl (a, q) ↦ inl (((eqb_ℤ_iff (pos (length vector)) d).0 e, a), rw (e, q) refl)
        | inr (a, q) ↦ inr (λ h. a (h.1), rw e (lifted (check_values float what 0 vector) q))
      ]
      | inr e ↦
          inr (λ h. false≢true (sym e ∙ (eqb_ℤ_iff (pos (length vector)) d).1 (h.0)), rw e refl)
    ]
  where
    lifted : (r : Result (Unit {0})) → Fails r → Refused (r, s) s
    lifted (ok a) h = absurd h
    lifted (err e) h = refl

module _ {F V W : Type 0} (float : Float32 F) (collections : CollectionRepository V W) (id : String)
    (vector : List F) where
  -- The steps that the two methods share, in front of the repository's call.
  guarded : {A : Type 0} → Exec (Service W) A → Exec (Service W) A
  guarded store = do
    refuse_if (id == "") (new_error "collection_id is required")
    refuse_if (is_empty vector) (new_error "vector cannot be empty")
    info ← get_collection_info collections id
    check_vector float "vector" (info.0) vector
    store

  -- How a method that stores a vector goes on: the collection's id or the vector is empty; the collection is not
  -- found; the vector does not fit the collection; or the store is called, behind the lookup.
  abbrev pub Stores : {A : Type 0} → Exec (Service W) A → Service W → Result A × Service W → Type 0
  Stores store s r =
      (((id ≡ "") ⊎ (is_empty vector ≡ true)) × Refused r s)
      ⊎ ((e : Error) × (t : Service W) × (get_collection_info collections id s ≡ (err e, t))
          × (r ≡ (err e, t)))
      ⊎ ((d : ℤ) × (m : String) × (t : Service W) × (get_collection_info collections id s
            ≡ (ok (d, m), t))
          × (((¬ IsFitting float d vector) × Refused r t)
              ⊎ ((id ≢ "") × (is_empty vector ≡ false) × IsFitting float d vector × (r ≡ store t))))

  guarded_cases :
      {A : Type 0} (store : Exec (Service W) A) (s : Service W) → Stores store s (guarded store s)
  unfolding guarded
  guarded_cases store s = elim (Bool-cases (id == "")) [
    | inl n ↦ inl (inl ((eq_iff id "").0 n), rw n refl)
    | inr n ↦ elim (Bool-cases (is_empty vector)) [
      | inl v ↦ inl (inr v, rw (n, v) refl)
      | inr v ↦ elim (Result-cases (get_collection_info collections id s)) [
        | inr (e, t, q) ↦ inr (inl (e, t, q, rw (n, v, q) refl))
        | inl (info, t, q) ↦ elim (check_vector-cases float "vector" (info.0) vector t) [
          | inl (fits, c) ↦ inr (
              inr (
                info.0,
                info.1,
                t,
                q,
                inr (λ x. false≢true (sym n ∙ (eq_iff id "").1 x), v, fits, rw (n, v, q, c) refl),
              ))
          | inr (fits, c) ↦ inr (
              inr (
                info.0,
                info.1,
                t,
                q,
                inl (
                  fits,
                  rw (n, v, q)
                      (Refused-continue (check_vector float "vector" (info.0) vector t) _ t c),
                ),
              ))
        ]
      ]
    ]
  ]

module _ {F V W : Type 0} (float : Float32 F) (documents : DocumentRepository F V W)
    (collections : CollectionRepository V W) where
  -- `CreateDocument` refuses an empty id or vector and touches nothing; fails as the lookup of the
  -- collection fails; refuses a vector that does not fit and touches nothing behind the lookup; and
  -- in every other case calls `Create` of the repository with an object for the metadata.
  pub create_document_cases :
      (id : String) (content : Bytes) (vector : List F) (metadata : Metadata V) (s : Service W)
      → Stores float collections id vector
          (wrap "failed to create document"
            (on_repo (documents.create id content vector (or_empty metadata))))
          s
          (create_document float documents collections id content vector metadata s)
  unfolding create_document guarded
  create_document_cases id content vector metadata s = guarded_cases float collections id vector _ s

  -- `UpsertDocument` of an empty document id fails and touches nothing; else it decides as
  -- `CreateDocument` does, and calls `Upsert` with the id of the document.
  pub upsert_document_cases :
      (document_id id : String) (content : Bytes) (vector : List F) (metadata : Metadata V)
      (s : Service W)
      → ((document_id ≡ "")
          × Refused
              (upsert_document float documents collections document_id id content vector metadata s)
              s)
        ⊎ ((document_id ≢ "")
            × Stores float collections id vector
                (wrap "failed to upsert document"
                  (on_repo (documents.upsert document_id id content vector (or_empty metadata))))
                s
                (upsert_document float documents collections document_id id content vector metadata
                  s))
  unfolding upsert_document guarded
  upsert_document_cases document_id id content vector metadata s =
      elim (Bool-cases (document_id == "")) [
        | inl n ↦ inl ((eq_iff document_id "").0 n, rw n refl)
        | inr n ↦ inr (
          λ x. false≢true (sym n ∙ (eq_iff document_id "").1 x),
          rw n (guarded_cases float collections id vector _ s),
        )
      ]
