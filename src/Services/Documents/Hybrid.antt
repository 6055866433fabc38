-- ===== src/Services/Documents/Hybrid.antt =====
-- What `HybridSearchDocuments` asks of the repository.
use text.Mathlib.Text.{◌==◌}
use text.Mathlib.TextEquality.{eq_iff}
use vector_sync.Base.{
  ℕ, String, ◌≡◌, ◌≢◌, refl, ◌⊎◌, inl, inr, Bool, true, false, List, arith, is_empty, Bool-cases,
  All, length, if◌then◌else◌, ◌&&◌,
}
use vector_sync.Base.Int.{ℤ, pos, eqb_ℤ, eqb_ℤ_iff}
use vector_sync.Base.Text.{Bytes}
use vector_sync.Base.Exec.{Result, ok, err, Exec, pure, wrap, lift}
use vector_sync.Models.{Metadata}
use vector_sync.Services.Interfaces.{
  CollectionRepository, DocumentRepository, Float32, Service, on_repo,
}
use vector_sync.Services.Collections.{or_empty}
use vector_sync.Services.Collections.Checks.{Refused, Refused-continue}
use vector_sync.Services.Documents.{get_collection_info, check_length, check_values}
use vector_sync.Services.Documents.Single.{IsFinite, Fails, check_values-cases}
use vector_sync.Services.Documents.Pages.{StandsFor, check_count-cases}
use vector_sync.Services.Documents.Listing.{
  check_count, outside_unit, normalize_weights, hybrid_search_documents,
}

-- There is no vector, or it has the dimension.
abbrev pub FitsIfGiven : {F : Type 0} → ℤ → List F → Type 0
FitsIfGiven d query = (is_empty query ≡ true) ⊎ (pos (length query) ≡ d)

abbrev length_if_given : {F S : Type 0} → ℤ → List F → Exec S (Unit {0})
length_if_given d query = if is_empty query then pure tt else check_length "query vector" d query

FitsIfGiven-cases :
    {F S : Type 0} (d : ℤ) (query : List F) (s : S)
    → (FitsIfGiven d query × (length_if_given d query s ≡ (ok tt, s)))
      ⊎ Refused (length_if_given d query s) s
unfolding check_length
FitsIfGiven-cases d query s = elim (Bool-cases (is_empty query)) [
  | inl e ↦ inl (inl e, rw e refl)
  | inr e ↦ elim (Bool-cases (eqb_ℤ (pos (length query)) d)) [
    | inl l ↦ inl (inr ((eqb_ℤ_iff (pos (length query)) d).0 l), rw (e, l) refl)
    | inr l ↦ inr (rw (e, l) refl)
  ]
]

lifted-cases :
    {F S : Type 0} (float : Float32 F) (query : List F) (s : S)
    → (All (IsFinite float) query
        × (lift {S = S} (check_values float "query vector" 0 query) s ≡ (ok tt, s)))
      ⊎ Refused (lift {S = S} (check_values float "query vector" 0 query) s) s
lifted-cases {S = S} float query s = elim (check_values-cases float "query vector" 0 query) [
  | inl (a, e) ↦ inl (a, rw e refl)
  | inr (a, e) ↦ inr (failed (check_values float "query vector" 0 query) e)
]
  where
    failed : (r : Result (Unit {0})) → Fails r → Refused (lift {S = S} r s) s
    failed (ok u) h = absurd h
    failed (err e) h = refl

module _ {F V W : Type 0} (float : Float32 F) (documents : DocumentRepository F V W)
    (collections : CollectionRepository V W) where
  -- Behind the lookup, `HybridSearchDocuments` either fails and touches nothing or searches once, with the collection's
  -- metric, a vector that is left out or has its dimension, finite values, 1 to 1000 results, weights
  -- that are not outside 0 to 1, and these weights normalized.
  pub hybrid_search_documents_page :
      (id : String) (text : Bytes) (query : List F) (top_k : ℤ) (filter : Metadata V) (v w : F)
      (include_vector : Bool) (s t : Service W) (d : ℤ) (m : String)
      → id ≢ ""
      → (is_empty query && is_empty text) ≡ false
      → get_collection_info collections id s ≡ (ok (d, m), t)
      → Refused
          (hybrid_search_documents float documents collections id text query top_k filter v w
            include_vector s)
          t
        ⊎ ((k : ℕ) × StandsFor 10 1000 top_k k
            × FitsIfGiven d query
            × All (IsFinite float) query
            × (outside_unit float v ≡ false)
            × (outside_unit float w ≡ false)
            × (hybrid_search_documents float documents collections id text query top_k filter v w
                  include_vector s
                ≡ wrap "failed to perform hybrid search"
                    (on_repo (
                      documents.hybrid_search id text query
                        (pos k)
                        (or_empty filter)
                        ((normalize_weights float v w).0)
                        ((normalize_weights float v w).1)
                        include_vector
                        m))
                    t))
  unfolding hybrid_search_documents
  hybrid_search_documents_page id text query top_k filter v w include_vector s t d m named
        some_query found =
      elim (Bool-cases (id == "")) [
        | inl n ↦ absurd (named ((eq_iff id "").0 n))
        | inr n ↦ elim (FitsIfGiven-cases d query t) [
          | inr l ↦
              inl (rw (n, some_query, found) (Refused-continue (length_if_given d query t) _ t l))
          | inl (fits, l) ↦ elim (lifted-cases float query t) [
            | inr c ↦ inl (
                rw (n, some_query, found, l)
                  (Refused-continue (lift (check_values float "query vector" 0 query) t) _ t c))
            | inl (finite, c) ↦
                elim (check_count-cases "top_k" 10 1000 top_k t (omega arith) (omega arith)) [
                  | inr b ↦ inl (
                      rw (n, some_query, found, l, c)
                        (Refused-continue (check_count "top_k" (pos 10) (pos 1000) top_k t) _ t b))
                  | inl (k, stands, b) ↦ elim (Bool-cases (outside_unit float v)) [
                    | inl o ↦ inl (rw (n, some_query, found, l, c, b, o) refl)
                    | inr o ↦ elim (Bool-cases (outside_unit float w)) [
                      | inl p ↦ inl (rw (n, some_query, found, l, c, b, o, p) refl)
                      | inr p ↦ inr (
                        k,
                        stands,
                        fits,
                        finite,
                        o,
                        p,
                        rw (n, some_query, found, l, c, b, o, p) refl,
                      )
                    ]
                  ]
                ]
          ]
        ]
      ]
