-- ===== src/Services/Documents/Pages.antt =====
-- The bounds on what the listing and the searches ask of the repository.
use text.Mathlib.Text.{◌==◌}
use text.Mathlib.TextEquality.{eq_iff}
use vector_sync.Base.{
  ℕ, zero, suc, ◌+◌, ◌≤◌, String, ◌≡◌, ◌≢◌, refl, ◌⊎◌, inl, inr, Bool, false, List, arith, ltb, leb,
  is_empty, Bool-cases,
}
use vector_sync.Base.Int.{ℤ, pos, negsuc}
use vector_sync.Base.Exec.{ok, wrap}
use vector_sync.Models.{Metadata}
use vector_sync.Services.Interfaces.{
  CollectionRepository, DocumentRepository, Float32, Service, on_repo,
}
use vector_sync.Services.Collections.{or_empty}
use vector_sync.Services.Collections.Checks.{Refused, Refused-continue}
use vector_sync.Services.Documents.{get_collection_info, check_vector}
use vector_sync.Services.Documents.Single.{IsFitting, check_vector-cases}
use vector_sync.Services.Documents.Listing.{
  check_count, outside_unit, list_documents, search_documents,
}

-- What a count in a request, 0 for the default, stands for: `k`, of 1 to `most`.
abbrev pub StandsFor : ℕ → ℕ → ℤ → ℕ → Type 0
StandsFor default most limit k =
    (((limit ≡ pos 0) × (k ≡ default)) ⊎ (limit ≡ pos k)) × (1 ≤ k) × (k ≤ most)

nonzero : (n : ℕ) → leb (suc n + 0) 0 ≡ false
nonzero n = ground arith

pub check_count-cases :
    {S : Type 0} (name : String) (default most : ℕ) (limit : ℤ) (s : S)
    → 1 ≤ default
    → default ≤ most
    → ((k : ℕ) × StandsFor default most limit k
        × (check_count name (pos default) (pos most) limit s ≡ (ok (pos k), s)))
      ⊎ Refused (check_count name (pos default) (pos most) limit s) s
unfolding check_count
check_count-cases name default most (negsuc n) s h i = inr refl
check_count-cases name default most (pos zero) s h i =
    let e : ltb (most + 0) (default + 0) ≡ false = allowed most default i in
    inl (default, (inl (refl, refl), h, i), rw e refl)
  where
    allowed : (m n : ℕ) → n ≤ m → ltb (m + 0) (n + 0) ≡ false
    allowed m n h = ground arith
check_count-cases name default most (pos (suc n)) s h i =
    elim (Bool-cases (ltb (most + 0) (suc n + 0))) [
      | inl e ↦ inr (rw (nonzero n, e) refl)
      | inr e ↦ inl (suc n, (inr refl, omega arith, below most (suc n) e), rw (nonzero n, e) refl)
    ]
  where
    below : (m n : ℕ) → ltb (m + 0) (n + 0) ≡ false → n ≤ m
    below m n h = ground arith

module _ {F V W : Type 0} (documents : DocumentRepository F V W)
    (collections : CollectionRepository V W) where
  -- Behind the lookup, `ListDocuments` either fails and touches nothing or asks the repository for 1 to 1000
  -- documents, as many as the request says or 50 where it says 0, from an offset that is not negative.
  pub list_documents_page :
      (id : String) (limit offset : ℤ) (include_vector : Bool) (s t : Service W) (d : ℤ)
      (m : String)
      → id ≢ ""
      → get_collection_info collections id s ≡ (ok (d, m), t)
      → Refused (list_documents documents collections id limit offset include_vector s) t
        ⊎ ((l : ℕ) × (o : ℕ) × StandsFor 50 1000 limit l
            × (offset ≡ pos o)
            × (list_documents documents collections id limit offset include_vector s
                ≡ wrap "failed to list documents"
                    (on_repo (documents.list id (pos l) (pos o) include_vector))
                    t))
  unfolding list_documents
  list_documents_page id limit offset include_vector s t d m named found =
      elim (Bool-cases (id == "")) [
        | inl n ↦ absurd (named ((eq_iff id "").0 n))
        | inr n ↦ elim (check_count-cases "limit" 50 1000 limit t (omega arith) (omega arith)) [
          | inr c ↦ inl (
              rw (n, found)
                (Refused-continue (check_count "limit" (pos 50) (pos 1000) limit t) _ t c))
          | inl (l, stands, c) ↦ at_offset offset l stands n c
        ]
      ]
    where
      at_offset :
          (o : ℤ) (l : ℕ)
          → StandsFor 50 1000 limit l
          → (id == "") ≡ false
          → check_count "limit" (pos 50) (pos 1000) limit t ≡ (ok (pos l), t)
          → Refused (list_documents documents collections id limit o include_vector s) t
            ⊎ ((l : ℕ) × (k : ℕ) × StandsFor 50 1000 limit l
                × (o ≡ pos k)
                × (list_documents documents collections id limit o include_vector s
                    ≡ wrap "failed to list documents"
                        (on_repo (documents.list id (pos l) (pos k) include_vector))
                        t))
      at_offset (negsuc k) l stands n c = inl (rw (n, found, c) refl)
      at_offset (pos k) l stands n c = inr (l, k, stands, refl, rw (n, found, c) refl)

module _ {F V W : Type 0} (float : Float32 F) (documents : DocumentRepository F V W)
    (collections : CollectionRepository V W) where
  -- Behind the lookup, `SearchDocuments` either fails and touches nothing or searches once, with the collection's
  -- metric, a query that fits the collection, 1 to 1000 results, as many as the request says or 10
  -- where it says 0, and a threshold that is not outside 0 to 1.
  pub search_documents_page :
      (id : String) (query : List F) (top_k : ℤ) (filter : Metadata V) (min_threshold : F)
      (include_vector : Bool) (s t : Service W) (d : ℤ) (m : String)
      → id ≢ ""
      → is_empty query ≡ false
      → get_collection_info collections id s ≡ (ok (d, m), t)
      → Refused
          (search_documents float documents collections id query top_k filter min_threshold
            include_vector s)
          t
        ⊎ ((k : ℕ) × IsFitting float d query
            × StandsFor 10 1000 top_k k
            × (outside_unit float min_threshold ≡ false)
            × (search_documents float documents collections id query top_k filter min_threshold
                  include_vector s
                ≡ wrap "failed to search documents"
                    (on_repo (
                      documents.search id query
                        (pos k)
                        (or_empty filter)
                        min_threshold
                        include_vector
                        m))
                    t))
  unfolding search_documents
  search_documents_page id query top_k filter min_threshold include_vector s t d m named some_query
        found =
      elim (Bool-cases (id == "")) [
        | inl n ↦ absurd (named ((eq_iff id "").0 n))
        | inr n ↦ elim (check_vector-cases float "query vector" d query t) [
          | inr (fits, v) ↦ inl (
              rw (n, some_query, found)
                (Refused-continue (check_vector float "query vector" d query t) _ t v))
          | inl (fits, v) ↦
              elim (check_count-cases "top_k" 10 1000 top_k t (omega arith) (omega arith)) [
                | inr c ↦ inl (
                    rw (n, some_query, found, v)
                      (Refused-continue (check_count "top_k" (pos 10) (pos 1000) top_k t) _ t c))
                | inl (k, stands, c) ↦ elim (Bool-cases (outside_unit float min_threshold)) [
                  | inl o ↦ inl (rw (n, some_query, found, v, c, o) refl)
                  | inr o ↦ inr (k, fits, stands, o, rw (n, some_query, found, v, c, o) refl)
                ]
              ]
        ]
      ]
