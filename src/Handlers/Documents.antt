-- ===== src/Handlers/Documents.antt =====
-- internal/grpc/document_handler.go: the RPCs that write or read documents by their ids.
pub mod Scoped
pub mod RoundTrip
pub mod Gone
use vector_sync.Base.{ℕ, String, Bool, List, [], ◌∷◌, map, Option, none, some}
use vector_sync.Base.Int.{ℤ, pos, to_int32}
use vector_sync.Base.Text.{Bytes}
use vector_sync.Base.Exec.{Result, ok, err, Exec, pure, ◌>>=◌, ◌>>◌}
use vector_sync.Models.{Metadata, Document}
use vector_sync.Embedding.Interface.{Wire}
use vector_sync.Services.Interfaces.{
  CollectionRepository, DocumentRepository, Float32, Service, UpsertResult,
}
use vector_sync.Services.Documents.{create_document, upsert_document, get_document, delete_document}
use vector_sync.Services.Documents.Listing.{list_documents}
use vector_sync.Services.Documents.Batch.{batch_insert, batch_delete}
use vector_sync.Services.Documents.Ingest.{ChunkingConfig, ingest_document}
use vector_sync.Handlers.Metadata.{Protobuf, Structs, from_structs, to_structs, boxed_structs}

-- `pb.CreateDocumentRequest`
pub record CreateRequest (F S : Type 0) : Type 0 where
  pub collection_id : String
  pub content : Bytes
  pub vector : List F
  pub metadata : Option (Structs S)

pub record Created (T : Type 0) : Type 0 where
  pub id : String
  pub created_at : T
  pub updated_at : T

pub record UpsertRequest (F S : Type 0) : Type 0 where
  pub id : String
  pub collection_id : String
  pub content : Bytes
  pub vector : List F
  pub metadata : Option (Structs S)

pub record Upserted (T : Type 0) : Type 0 where
  pub id : String
  pub is_new : Bool
  pub created_at : T
  pub updated_at : T

pub record IngestRequest (S : Type 0) : Type 0 where
  pub collection_id : String
  pub content : Bytes
  pub metadata : Option (Structs S)
  pub chunking_config : Option ChunkingConfig

-- `pb.IngestDocumentResponse`, and the responses of the two batches
pub record Counted : Type 0 where
  pub count : ℤ
  pub document_ids : List String

pub record ListRequest : Type 0 where
  pub collection_id : String
  pub limit : ℤ
  pub offset : ℤ
  pub include_vector : Bool

pub record Deleted (T : Type 0) : Type 0 where
  pub id : String
  pub deleted_at : T

-- `pb.Document`
pub record DocumentMessage (F S T : Type 0) : Type 0 where
  pub id : String
  pub created_at : T
  pub updated_at : T
  pub collection_id : String
  pub content : Bytes
  pub vector : List F
  pub metadata : Structs S

pub record BatchInsertRequest (F S : Type 0) : Type 0 where
  pub collection_id : String
  pub documents : List (CreateRequest F S)

pub record BatchDeleteRequest : Type 0 where
  pub collection_id : String
  pub document_ids : List String

abbrev pub counted : {F V : Type 0} → ℕ × List (Document F V) → Counted
counted (n, documents) = record {
  count = to_int32 (pos n);
  document_ids = map (λ d. d.id) documents;
}

-- `if req.GetChunkingConfig() != nil { … }`, over a configuration with zero values
unfoldable pub chunking_config : Option ChunkingConfig → ChunkingConfig
chunking_config none = record { strategy = ""; chunk_size = pos 0; chunk_overlap = pos 0 }
chunking_config (some config) = config

module _ {S M V T : Type 0} (protobuf : Protobuf S M V T) where
  -- `convertToProtoDocument`
  unfoldable pub to_message : {F : Type 0} → Document F V → DocumentMessage F S T
  to_message c = record {
    id = c.id;
    created_at = protobuf.timestamp c.created_at;
    updated_at = protobuf.timestamp c.updated_at;
    collection_id = c.collection_id;
    content = c.content;
    vector = c.vector;
    metadata = to_structs protobuf c.metadata;
  }

  -- `convertToModelDocument`; a map of a message that is nil is `none`
  unfoldable pub to_model : {F : Type 0} → DocumentMessage F S T → Option (Structs S) → Document F V
  to_model c metadata = record {
    id = c.id;
    collection_id = c.collection_id;
    vector = c.vector;
    metadata = elim metadata [ none ↦ none | some entries ↦ some (boxed_structs protobuf entries) ];
    content = c.content;
    created_at = protobuf.as_time c.created_at;
    updated_at = protobuf.as_time c.updated_at;
  }

  -- One round of the loop of `BatchInsert`: the collection of the entry itself is not read.
  unfoldable pub batch_document : {F : Type 0} → String → CreateRequest F S → Document F V
  batch_document id v = record {
    id = "";
    collection_id = id;
    vector = v.vector;
    metadata = from_structs protobuf v.metadata;
    content = v.content;
    created_at = 0;
    updated_at = 0;
  }

  abbrev pub created : {F : Type 0} → Document F V → Created T
  created d = record {
    id = d.id;
    created_at = protobuf.timestamp d.created_at;
    updated_at = protobuf.timestamp d.updated_at;
  }

  abbrev pub upserted : {F : Type 0} → UpsertResult F V → Upserted T
  upserted result = record {
    id = result.document.id;
    is_new = result.is_new;
    created_at = protobuf.timestamp result.document.created_at;
    updated_at = protobuf.timestamp result.document.updated_at;
  }

-- The response of `IngestDocument`; `none` is a panic of the service.
unfoldable pub ingest_response :
    {S : Type 0} → Option (Result (ℕ × List String)) × S → Option (Result Counted) × S
ingest_response (none, s) = (none, s)
ingest_response (some (err e), s) = (some (err e), s)
ingest_response (some (ok (n, ids)), s) =
    (some (ok (record { count = to_int32 (pos n); document_ids = ids })), s)

module _ {F S M V T W : Type 0} (protobuf : Protobuf S M V T)
    (documents : DocumentRepository F V W) where
  -- `ListDocument`
  unfoldable pub handle_get : String → Exec (Service W) (DocumentMessage F S T)
  handle_get id = do document ← get_document documents id; pure (to_message protobuf document)

-- `DeleteDocument`, at the time `now`
unfoldable pub handle_delete :
    {F V T W : Type 0} → DocumentRepository F V W → T → String → Exec (Service W) (Deleted T)
handle_delete documents now id = do
  delete_document documents id
  pure (record { id = id; deleted_at = now })

-- `BatchDelete`
unfoldable pub handle_batch_delete :
    {F V W : Type 0}
    → DocumentRepository F V W
    → CollectionRepository V W
    → BatchDeleteRequest
    → Exec (Service W) Counted
handle_batch_delete documents collections request = do
  deleted ← batch_delete documents collections request.collection_id request.document_ids
  pure (counted deleted)

module _ {F S M V T W : Type 0} (protobuf : Protobuf S M V T) (documents : DocumentRepository F V W)
    (collections : CollectionRepository V W) where
  -- `ListDocuments`
  unfoldable pub handle_list : ListRequest → Exec (Service W) (List (DocumentMessage F S T))
  handle_list request = do
    found ←
        list_documents documents collections request.collection_id request.limit request.offset
          request.include_vector
    pure (map (to_message protobuf) found)

  -- `BatchInsert`
  unfoldable pub handle_batch_insert : BatchInsertRequest F S → Exec (Service W) Counted
  handle_batch_insert request = do
    inserted ←
        batch_insert documents collections request.collection_id
          (map (batch_document protobuf request.collection_id) request.documents)
    pure (counted inserted)

  -- `CreateDocument`
  unfoldable pub handle_create : Float32 F → CreateRequest F S → Exec (Service W) (Created T)
  handle_create float request = do
    document ←
        create_document float documents collections request.collection_id request.content
          request.vector (from_structs protobuf request.metadata)
    pure (created protobuf document)

  -- `UpsertDocument`
  unfoldable pub handle_upsert : Float32 F → UpsertRequest F S → Exec (Service W) (Upserted T)
  handle_upsert float request = do
    result ←
        upsert_document float documents collections request.id request.collection_id request.content
          request.vector (from_structs protobuf request.metadata)
    pure (upserted protobuf result)

  -- `IngestDocument`
  unfoldable pub handle_ingest :
      Wire F W → IngestRequest S → Service W → Option (Result Counted) × Service W
  unfolding ingest_response
  handle_ingest wire request s = ingest_response (
      ingest_document wire documents collections request.collection_id request.content
        (from_structs protobuf request.metadata) (chunking_config request.chunking_config) s)
