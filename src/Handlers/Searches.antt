-- ===== src/Handlers/Searches.antt =====
-- internal/grpc/document_handler.go: the three searches. Query and Hybrid go down to the statement that
-- is run.
pub mod Calls
pub mod Query
pub mod Hybrid
use vector_sync.Base.{String, Bool, List, [], ◌∷◌, map}
use vector_sync.Base.Int.{ℤ, pos}
use vector_sync.Base.Text.{Bytes}
use vector_sync.Base.Exec.{message, lit, str, Exec, pure, refuse_if, ◌>>=◌, ◌>>◌}
use vector_sync.Services.Interfaces.{
  CollectionRepository, DocumentRepository, Float32, Service, SearchResult,
}
use vector_sync.Services.Documents.Listing.{
  or_default, outside_unit, full_text_search_documents, search_documents, hybrid_search_documents,
}
use vector_sync.Handlers.Metadata.{Protobuf, Structs, from_filter}
use vector_sync.Handlers.Documents.{DocumentMessage, to_message}

-- `pb.SearchDocumentRequest`
pub record SearchRequest (F S : Type 0) : Type 0 where
  pub collection_id : String
  pub query_vector : List F
  pub top_k : ℤ
  pub metadata_filter : Structs S
  pub include_vector : Bool
  pub min_threshold : F

pub record FullTextRequest (F : Type 0) : Type 0 where
  pub collection_id : String
  pub query : Bytes
  pub limit : ℤ
  pub min_rank : F
  pub include_vector : Bool

pub record HybridRequest (F S : Type 0) : Type 0 where
  pub collection_id : String
  pub query_vector : List F
  pub query_text : Bytes
  pub top_k : ℤ
  pub metadata : Structs S
  pub vector_weight : F
  pub text_weight : F
  pub include_vector : Bool

-- `pb.SearchResult`
pub record ResultMessage (F S T : Type 0) : Type 0 where
  pub document : DocumentMessage F S T
  pub score : F

module _ {S M V T : Type 0} (protobuf : Protobuf S M V T) where
  -- One round of the loop over the results.
  abbrev pub to_result : {F : Type 0} → SearchResult F V → ResultMessage F S T
  to_result result = record { document = to_message protobuf result.document; score = result.score }

  abbrev pub to_results :
      {F W : Type 0}
      → Exec (Service W) (List (SearchResult F V))
      → Exec (Service W) (List (ResultMessage F S T))
  to_results m = do results ← m; pure (map to_result results)

module _ {F S M V T W : Type 0} (protobuf : Protobuf S M V T) (float : Float32 F)
    (documents : DocumentRepository F V W) (collections : CollectionRepository V W) where
  -- `SearchDocuments`
  unfoldable pub handle_search : SearchRequest F S → Exec (Service W) (List (ResultMessage F S T))
  handle_search request = to_results protobuf (
      search_documents float documents collections request.collection_id request.query_vector
        (or_default (pos 10) request.top_k) (from_filter protobuf request.metadata_filter)
        request.min_threshold request.include_vector)

  -- `FullTextSearch`; `format` is what `%f` writes of a float32
  unfoldable pub handle_full_text :
      (F → String) → FullTextRequest F → Exec (Service W) (List (ResultMessage F S T))
  handle_full_text format request = do
    refuse_if (outside_unit float request.min_rank) (
        message (
          lit "invalid value of "
          ∷ str (format request.min_rank)
          ∷ lit " for rank, should be between 0.0 and 1.0"
          ∷ []))
    to_results protobuf (
        full_text_search_documents documents collections request.collection_id request.query
          (or_default (pos 10) request.limit) request.min_rank request.include_vector)

  -- `HybridSearch`
  unfoldable pub handle_hybrid : HybridRequest F S → Exec (Service W) (List (ResultMessage F S T))
  handle_hybrid request = to_results protobuf (
      hybrid_search_documents float documents collections request.collection_id request.query_text
        request.query_vector (or_default (pos 10) request.top_k)
        (from_filter protobuf request.metadata) request.vector_weight request.text_weight
        request.include_vector)
