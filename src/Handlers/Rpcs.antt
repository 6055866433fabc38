-- ===== src/Handlers/Rpcs.antt =====
-- cmd/vector-sync/main.go: the handlers over their services, and these over the repositories, as `main` puts
-- them together and registers them with the gRPC server. A message is told apart by its RPC.
pub mod Growing
pub mod Coherent
pub mod Database
use vector_sync.Base.{String, List, [], ◌∷◌, Option, none, some}
use vector_sync.Base.Int.{ℤ}
use vector_sync.Base.Exec.{Result, ok, err, Exec}
use vector_sync.Embedding.Interface.{Wire}
use vector_sync.Services.Interfaces.{
  CollectionRepository, DocumentRepository, Float32, Service, on_repo,
}
use vector_sync.Handlers.Metadata.{Protobuf}
use vector_sync.Handlers.Collections
use vector_sync.Handlers.Documents
use vector_sync.Handlers.Documents.{
  UpsertRequest, IngestRequest, ListRequest, BatchInsertRequest, BatchDeleteRequest, Created,
  Upserted, Counted, DocumentMessage, handle_batch_insert, handle_batch_delete, handle_upsert,
  handle_ingest,
}
use vector_sync.Handlers.Searches.{
  SearchRequest, FullTextRequest, HybridRequest, ResultMessage, handle_search, handle_full_text,
  handle_hybrid,
}
use vector_sync.Handlers.Health.{ServingStatus, check_health}

-- The requests of the three services. A deletion comes with the time of its answer.
pub data Rpc (F S T : Type 0) : Type 0 where
  create_collection : Collections.CreateRequest S → Rpc F S T
  list_collection : String → Rpc F S T
  list_collections : ℤ → ℤ → Rpc F S T
  delete_collection : T → String → Rpc F S T
  create_document : Documents.CreateRequest F S → Rpc F S T
  ingest_document : IngestRequest S → Rpc F S T
  upsert_document : UpsertRequest F S → Rpc F S T
  list_document : String → Rpc F S T
  list_documents : ListRequest → Rpc F S T
  delete_document : T → String → Rpc F S T
  search_documents : SearchRequest F S → Rpc F S T
  full_text_search : FullTextRequest F → Rpc F S T
  batch_insert : BatchInsertRequest F S → Rpc F S T
  batch_delete : BatchDeleteRequest → Rpc F S T
  hybrid_search : HybridRequest F S → Rpc F S T
  check : String → Rpc F S T

pub data Reply (F S T : Type 0) : Type 0 where
  collection : Collections.CollectionMessage S T → Reply F S T
  collections : List (Collections.CollectionMessage S T) → Reply F S T
  collection_deleted : Collections.Deleted T → Reply F S T
  created : Created T → Reply F S T
  upserted : Upserted T → Reply F S T
  counted : Counted → Reply F S T
  document : DocumentMessage F S T → Reply F S T
  documents : List (DocumentMessage F S T) → Reply F S T
  document_deleted : Documents.Deleted T → Reply F S T
  results : List (ResultMessage F S T) → Reply F S T
  status : ServingStatus → Reply F S T

abbrev map_result : {A B : Type 0} → (A → B) → Result A → Result B
map_result f (ok a) = ok (f a)
map_result f (err e) = err e

-- What a handler answers, and a panic as `none`.
abbrev pub answered : {A B S : Type 0} → (A → B) → Exec S A → S → Option (Result B) × S
answered f m s = let (r, t) = m s in (some (map_result f r), t)

abbrev pub answered_or_panic :
    {A B S : Type 0} → (A → B) → Option (Result A) × S → Option (Result B) × S
answered_or_panic f (none, s) = (none, s)
answered_or_panic f (some r, s) = (some (map_result f r), s)

module _ {F S M V T W : Type 0} (protobuf : Protobuf S M V T) (float : Float32 F) (wire : Wire F W)
    (format : F → String) (ping : Exec W (Unit {0})) (document_repo : DocumentRepository F V W)
    (collection_repo : CollectionRepository V W) where
  -- One RPC, from the request to the answer.
  unfoldable pub handle : Rpc F S T → Service W → Option (Result (Reply F S T)) × Service W
  handle (create_collection r) =
      answered collection (on_repo (Collections.handle_create protobuf collection_repo r))
  handle (list_collection id) =
      answered collection (on_repo (Collections.handle_get protobuf collection_repo id))
  handle (list_collections limit offset) =
      answered collections (on_repo (Collections.handle_list protobuf collection_repo limit offset))
  handle (delete_collection now id) =
      answered collection_deleted (on_repo (Collections.handle_delete collection_repo now id))
  handle (create_document r) =
      answered created (Documents.handle_create protobuf document_repo collection_repo float r)
  handle (ingest_document r) =
      λ s. answered_or_panic counted (handle_ingest protobuf document_repo collection_repo wire r s)
  handle (upsert_document r) =
      answered upserted (handle_upsert protobuf document_repo collection_repo float r)
  handle (list_document id) = answered document (Documents.handle_get protobuf document_repo id)
  handle (list_documents r) =
      answered documents (Documents.handle_list protobuf document_repo collection_repo r)
  handle (delete_document now id) =
      answered document_deleted (Documents.handle_delete document_repo now id)
  handle (search_documents r) =
      answered results (handle_search protobuf float document_repo collection_repo r)
  handle (full_text_search r) =
      answered results (handle_full_text protobuf float document_repo collection_repo format r)
  handle (batch_insert r) =
      answered counted (handle_batch_insert protobuf document_repo collection_repo r)
  handle (batch_delete r) = answered counted (handle_batch_delete document_repo collection_repo r)
  handle (hybrid_search r) =
      answered results (handle_hybrid protobuf float document_repo collection_repo r)
  handle (check service) = answered status (on_repo (check_health (some ping) service))

  -- The state behind RPCs one after the other, whatever they answer.
  unfoldable pub after_rpcs : List (Rpc F S T) → Service W → Service W
  unfolding handle
  after_rpcs [] s = s
  after_rpcs (r ∷ rs) s = after_rpcs rs ((handle r s).1)
