-- ===== src/Handlers/Rpcs/Coherent.antt =====
-- The cache of the collections against the table, over RPCs of all three services.
use vector_sync.Base.{ℕ, map, String, List, [], ◌∷◌, Option, none, some, All}
use vector_sync.Base.Int.{ℤ}
use vector_sync.Base.Keeps.{Keeps, then_pure-Keeps, lift-Keeps, then-Keeps, checked-Keeps}
use vector_sync.Base.Exec.{Result, ok, err, Exec}
use vector_sync.Embedding.Interface.{Wire}
use vector_sync.Services.Interfaces.{
  CollectionRepository, DocumentRepository, Float32, Service, on_repo,
}
use vector_sync.Services.Collections.{list_collections, clamp_limit, clamp_offset}
use vector_sync.Services.Documents.Coherent.{Table, IsCoherent}
use vector_sync.Services.Documents.Coherent.Requests.{
  LeavesCollections, create-Keeps, upsert-Keeps, get-Keeps, delete-Keeps, list-Keeps,
  full_text-Keeps, similar-Keeps, hybrid-Keeps, insert_all-Keeps, delete_all-Keeps,
}
use vector_sync.Services.Documents.Coherent.Clients.{LeavesTables}
use vector_sync.Services.Documents.Coherent.Ingestion.{ingest-IsCoherent}
use vector_sync.Services.Documents.Ingest.{ingest_document as ingest}
use vector_sync.Handlers.Metadata.{Protobuf, from_structs}
use vector_sync.Handlers.Collections
use vector_sync.Handlers.Documents
use vector_sync.Handlers.Documents.{
  handle_batch_insert, handle_batch_delete, handle_upsert, handle_ingest, ingest_response,
  UpsertRequest, IngestRequest, ListRequest, BatchInsertRequest, BatchDeleteRequest,
  chunking_config,
}
use vector_sync.Handlers.Searches.{
  SearchRequest, FullTextRequest, HybridRequest, handle_search, handle_full_text, handle_hybrid,
}
use vector_sync.Handlers.Health.{check_health}
use vector_sync.Handlers.Rpcs.{
  Rpc, create_collection as create_collection_rpc, list_collection as list_collection_rpc,
  list_collections as list_collections_rpc, delete_collection, create_document, ingest_document,
  upsert_document, list_document, list_documents, delete_document, search_documents,
  full_text_search, batch_insert, batch_delete, hybrid_search, check, handle, after_rpcs,
  answered_or_panic, Reply, counted,
}
use vector_sync.Handlers.Rpcs.Growing.{
  GrowsTables, on_repo-IsCoherent, create_collection-IsGrowing, list_collection-IsGrowing,
  check-IsGrowing,
}

-- Not the deletion of a collection.
abbrev pub LeavesTable : {F S T : Type 0} → Rpc F S T → Type 0
LeavesTable (create_collection_rpc r) = Unit
LeavesTable (list_collection_rpc id) = Unit
LeavesTable (list_collections_rpc limit offset) = Unit
LeavesTable (delete_collection now id) = ⊥
LeavesTable (create_document r) = Unit
LeavesTable (ingest_document r) = Unit
LeavesTable (upsert_document r) = Unit
LeavesTable (list_document id) = Unit
LeavesTable (list_documents r) = Unit
LeavesTable (delete_document now id) = Unit
LeavesTable (search_documents r) = Unit
LeavesTable (full_text_search r) = Unit
LeavesTable (batch_insert r) = Unit
LeavesTable (batch_delete r) = Unit
LeavesTable (hybrid_search r) = Unit
LeavesTable (check service) = Unit

module _ {F S M V T W : Type 0} (protobuf : Protobuf S M V T) (float : Float32 F) (wire : Wire F W)
    (format : F → String) (ping : Exec W (Unit {0})) (documents : DocumentRepository F V W)
    (collections : CollectionRepository V W) (table : Table W)
    (laws : LeavesCollections documents collections table) (remote : LeavesTables wire table)
    (grows : GrowsTables table collections ping) where
  create_document-Keeps :
      (r : Documents.CreateRequest F S)
      → Keeps (IsCoherent table) (Documents.handle_create protobuf documents collections float r)
  unfolding Documents.handle_create
  create_document-Keeps r = search (then_pure-Keeps, create-Keeps, laws) depth 9

  upsert_document-Keeps :
      (r : UpsertRequest F S)
      → Keeps (IsCoherent table) (handle_upsert protobuf documents collections float r)
  unfolding handle_upsert
  upsert_document-Keeps r = search (then_pure-Keeps, upsert-Keeps, laws) depth 9

  list_document-Keeps :
      (id : String) → Keeps (IsCoherent table) (Documents.handle_get protobuf documents id)
  unfolding Documents.handle_get
  list_document-Keeps id = search (then_pure-Keeps, get-Keeps, laws) depth 9

  list_documents-Keeps :
      (r : ListRequest)
      → Keeps (IsCoherent table) (Documents.handle_list protobuf documents collections r)
  unfolding Documents.handle_list
  list_documents-Keeps r = search (then_pure-Keeps, list-Keeps, laws) depth 9

  search_documents-Keeps :
      (r : SearchRequest F S)
      → Keeps (IsCoherent table) (handle_search protobuf float documents collections r)
  unfolding handle_search
  search_documents-Keeps r = search (then_pure-Keeps, similar-Keeps, laws) depth 9

  full_text_search-Keeps :
      (r : FullTextRequest F)
      → Keeps (IsCoherent table) (handle_full_text protobuf float documents collections format r)
  unfolding handle_full_text
  full_text_search-Keeps r = search (checked-Keeps, then_pure-Keeps, full_text-Keeps, laws) depth 9

  batch_insert-Keeps :
      (r : BatchInsertRequest F S)
      → Keeps (IsCoherent table) (handle_batch_insert protobuf documents collections r)
  unfolding handle_batch_insert
  batch_insert-Keeps r = search (then_pure-Keeps, insert_all-Keeps, laws) depth 9

  batch_delete-Keeps :
      (r : BatchDeleteRequest)
      → Keeps (IsCoherent table) (handle_batch_delete documents collections r)
  unfolding handle_batch_delete
  batch_delete-Keeps r = search (then_pure-Keeps, delete_all-Keeps, laws) depth 9

  hybrid_search-Keeps :
      (r : HybridRequest F S)
      → Keeps (IsCoherent table) (handle_hybrid protobuf float documents collections r)
  unfolding handle_hybrid
  hybrid_search-Keeps r = search (then_pure-Keeps, hybrid-Keeps, laws) depth 9

  delete_document-Keeps :
      (now : T) (id : String) → Keeps (IsCoherent table) (Documents.handle_delete documents now id)
  unfolding Documents.handle_delete
  delete_document-Keeps now id = search (then-Keeps, lift-Keeps, delete-Keeps, laws) depth 9

  ingest_document-IsCoherent :
      (r : IngestRequest S) (s : Service W)
      → IsCoherent table s
      → IsCoherent table (
          (answered_or_panic {B = Reply F S T} counted
            (handle_ingest protobuf documents collections wire r s)).1)
  unfolding handle_ingest ingest_response
  ingest_document-IsCoherent r s h =
      behind
        (ingest wire documents collections r.collection_id r.content
          (from_structs protobuf r.metadata) (chunking_config r.chunking_config) s)
        (ingest-IsCoherent float wire documents collections table laws remote r.collection_id
          r.content (from_structs protobuf r.metadata) (chunking_config r.chunking_config) s h)
    where
      behind :
          (x : Option (Result (ℕ × List String)) × Service W)
          → IsCoherent table (x.1)
          → IsCoherent table ((answered_or_panic {B = Reply F S T} counted (ingest_response x)).1)
      behind (none, t) g = g
      behind (some (err e), t) g = g
      behind (some (ok (n, ids)), t) g = g

  create_collection-Keeps :
      (r : Collections.CreateRequest S)
      → Keeps (IsCoherent table) (on_repo (Collections.handle_create protobuf collections r))
  unfolding Collections.handle_create
  create_collection-Keeps r =
      on_repo-IsCoherent table (Collections.handle_create protobuf collections r) (λ id info.
        then_pure-Keeps _ (Collections.to_message protobuf) (
          create_collection-IsGrowing collections ping table grows r.name r.vector_dimension
            (from_structs protobuf r.metadata_schema) r.distance_metric r.embedding_provider
            r.embedding_model id info))

  list_collections-Keeps :
      (limit offset : ℤ)
      → Keeps
          (IsCoherent table)
          (on_repo (Collections.handle_list protobuf collections limit offset))
  unfolding Collections.handle_list list_collections
  list_collections-Keeps limit offset =
      on_repo-IsCoherent table (Collections.handle_list protobuf collections limit offset)
        (λ id info.
          then_pure-Keeps _ (map (Collections.to_message protobuf))
            (grows.list_grows (clamp_limit limit) (clamp_offset offset) id info))

  list_collection-Keeps :
      (id : String)
      → Keeps (IsCoherent table) (on_repo (Collections.handle_get protobuf collections id))
  unfolding Collections.handle_get
  list_collection-Keeps id =
      on_repo-IsCoherent table (Collections.handle_get protobuf collections id) (λ name info.
        then_pure-Keeps _ (Collections.to_message protobuf)
          (list_collection-IsGrowing collections ping table grows laws.find_quiet id name info))

  handle-IsCoherent :
      (r : Rpc F S T) (s : Service W)
      → LeavesTable r
      → IsCoherent table s
      → IsCoherent table ((handle protobuf float wire format ping documents collections r s).1)
  unfolding handle
  handle-IsCoherent (create_document r) s l h = (create_document-Keeps r).kept s h
  handle-IsCoherent (upsert_document r) s l h = (upsert_document-Keeps r).kept s h
  handle-IsCoherent (list_document id) s l h = (list_document-Keeps id).kept s h
  handle-IsCoherent (list_documents r) s l h = (list_documents-Keeps r).kept s h
  handle-IsCoherent (search_documents r) s l h = (search_documents-Keeps r).kept s h
  handle-IsCoherent (full_text_search r) s l h = (full_text_search-Keeps r).kept s h
  handle-IsCoherent (batch_insert r) s l h = (batch_insert-Keeps r).kept s h
  handle-IsCoherent (batch_delete r) s l h = (batch_delete-Keeps r).kept s h
  handle-IsCoherent (hybrid_search r) s l h = (hybrid_search-Keeps r).kept s h
  handle-IsCoherent (delete_document now id) s l h = (delete_document-Keeps now id).kept s h
  handle-IsCoherent (ingest_document r) s l h = ingest_document-IsCoherent r s h
  handle-IsCoherent (create_collection_rpc r) s l h = (create_collection-Keeps r).kept s h
  handle-IsCoherent (list_collection_rpc id) s l h = (list_collection-Keeps id).kept s h
  handle-IsCoherent (list_collections_rpc limit offset) s l h =
      (list_collections-Keeps limit offset).kept s h
  handle-IsCoherent (delete_collection now id) s l h = absurd l
  handle-IsCoherent (check service) s l h =
      (on_repo-IsCoherent table (check_health (some ping) service)
          (check-IsGrowing collections ping table grows service)).kept
        s h

  -- If every entry of the cache is what the table says of its collection, that holds too behind any RPCs of the three
  -- services but `DeleteCollection`, in any order, failed ones included. It asks that neither the repository of
  -- documents nor a provider changes what the table says, and that an insertion of a collection, a
  -- listing and a ping change nothing of the collections that there are.
  pub services-IsCoherent :
      (rs : List (Rpc F S T)) (s : Service W)
      → All LeavesTable rs
      → IsCoherent table s
      → IsCoherent table (after_rpcs protobuf float wire format ping documents collections rs s)
  unfolding after_rpcs
  services-IsCoherent [] s l h = h
  services-IsCoherent (r ∷ rs) s l h =
      services-IsCoherent rs ((handle protobuf float wire format ping documents collections r s).1)
        (l.1) (handle-IsCoherent r s (l.0) h)
