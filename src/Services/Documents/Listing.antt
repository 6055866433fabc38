-- ===== src/Services/Documents/Listing.antt =====
-- internal/services/document_service.go: the methods that read many documents, by page or by search.
use text.Mathlib.Text.{◌==◌}
use vector_sync.Base.{String, Bool, ◌&&◌, ◌||◌, List, [], ◌∷◌, if◌then◌else◌, is_empty}
use vector_sync.Base.Int.{ℤ, pos, is_neg, is_zero, ltb_ℤ}
use vector_sync.Base.Text.{Bytes}
use vector_sync.Base.Exec.{
  message, lit, num, new_error, Exec, pure, lift, wrap, refuse_if, ◌>>=◌, ◌>>◌,
}
use vector_sync.Models.{Metadata, Document}
use vector_sync.Services.Interfaces.{
  CollectionRepository, DocumentRepository, SearchResult, Float32, Service, on_repo,
}
use vector_sync.Services.Collections.{or_empty}
use vector_sync.Services.Documents.{get_collection_info, check_values, check_length, check_vector}

-- Pagination and search defaults
abbrev pub default_limit : ℤ
default_limit = pos 50

abbrev pub max_limit : ℤ
max_limit = pos 1000

abbrev pub default_top_k : ℤ
default_top_k = pos 10

abbrev pub max_top_k : ℤ
max_top_k = pos 1000

-- `if limit == 0 { limit = … }`
abbrev pub or_default : ℤ → ℤ → ℤ
or_default default limit = if is_zero limit then default else limit

-- The normalization of `limit` and of `top_k`, by the name that the errors give it.
unfoldable pub check_count : {S : Type 0} → String → ℤ → ℤ → ℤ → Exec S ℤ
check_count name default most limit = do
  refuse_if (is_neg limit) (message (lit name ∷ lit " cannot be negative" ∷ []))
  refuse_if (ltb_ℤ most (or_default default limit))
      (message (lit name ∷ lit " cannot exceed " ∷ num most ∷ []))
  pure (or_default default limit)

module _ {F : Type 0} (float : Float32 F) where
  -- `x < 0.0 || x > 1.0`
  abbrev pub outside_unit : F → Bool
  outside_unit x = float.lt x float.zero || float.lt float.one x

  -- The weights, normalized to sum to 1.0.
  unfoldable pub normalize_weights : F → F → F × F
  normalize_weights v t =
      let sum = float.add v t in
      if float.eq v float.zero && float.eq t float.zero
      then (float.half, float.half)
      else if float.lt float.zero sum
      then (float.div v sum, float.div t sum)
      else (v, t)

module _ {F V W : Type 0} (documents : DocumentRepository F V W)
    (collections : CollectionRepository V W) where
  -- `ListDocuments`
  unfoldable pub list_documents : String → ℤ → ℤ → Bool → Exec (Service W) (List (Document F V))
  list_documents id limit offset include_vector = do
    refuse_if (id == "") (new_error "collection_id is required")
    info ← get_collection_info collections id
    l ← check_count "limit" default_limit max_limit limit
    refuse_if (is_neg offset) (new_error "offset cannot be negative")
    wrap "failed to list documents" (on_repo (documents.list id l offset include_vector))

  -- `FullTextSearchDocuments`, whose limit has no maximum
  unfoldable pub full_text_search_documents :
      String → Bytes → ℤ → F → Bool → Exec (Service W) (List (SearchResult F V))
  full_text_search_documents id query limit min_rank include_vector = do
    refuse_if (id == "") (new_error "collection_id is required")
    refuse_if (is_empty query) (new_error "query cannot be empty")
    info ← get_collection_info collections id
    refuse_if (is_neg limit) (new_error "limit cannot be negative")
    wrap "failed to search documents" (
        on_repo (
          documents.full_text_search id query (or_default default_limit limit) min_rank
            include_vector))

module _ {F V W : Type 0} (float : Float32 F) (documents : DocumentRepository F V W)
    (collections : CollectionRepository V W) where
  -- `SearchDocuments`
  unfoldable pub search_documents :
      String → List F → ℤ → Metadata V → F → Bool → Exec (Service W) (List (SearchResult F V))
  search_documents id query top_k filter min_threshold include_vector = do
    refuse_if (id == "") (new_error "collection_id is required")
    refuse_if (is_empty query) (new_error "query_vector cannot be empty")
    info ← get_collection_info collections id
    check_vector float "query vector" (info.0) query
    k ← check_count "top_k" default_top_k max_top_k top_k
    refuse_if (outside_unit float min_threshold)
        (new_error "min_threshold must be between 0.0 and 1.0")
    wrap "failed to search documents" (
        on_repo
          (documents.search id query k (or_empty filter) min_threshold include_vector (info.1)))

  -- `HybridSearchDocuments`
  unfoldable pub hybrid_search_documents :
      String
      → Bytes
      → List F
      → ℤ
      → Metadata V
      → F
      → F
      → Bool
      → Exec (Service W) (List (SearchResult F V))
  hybrid_search_documents id text query top_k filter vector_weight text_weight include_vector = do
    refuse_if (id == "") (new_error "collection_id is required")
    refuse_if (is_empty query && is_empty text)
        (new_error "at least one of query_vector or query_text is required")
    info ← get_collection_info collections id
    (if is_empty query then pure tt else check_length "query vector" (info.0) query)
    lift (check_values float "query vector" 0 query)
    k ← check_count "top_k" default_top_k max_top_k top_k
    refuse_if (outside_unit float vector_weight)
        (new_error "vector_weight must be between 0.0 and 1.0")
    refuse_if (outside_unit float text_weight) (new_error "text_weight must be between 0.0 and 1.0")
    let weights = normalize_weights float vector_weight text_weight
    wrap "failed to perform hybrid search" (
        on_repo (
          documents.hybrid_search id text query k (or_empty filter) (weights.0) (weights.1)
            include_vector (info.1)))
