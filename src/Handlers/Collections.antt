-- ===== src/Handlers/Collections.antt =====
-- internal/grpc/collection_handler.go: the RPCs on collections.
use vector_sync.Base.{String, List, map, Option}
use vector_sync.Base.Int.{ℤ, to_int32}
use vector_sync.Base.Exec.{Exec, pure, ◌>>=◌}
use vector_sync.Models.{Collection}
use vector_sync.Services.Interfaces.{CollectionRepository}
use vector_sync.Services.Collections.{
  create_collection, list_collections, list_collection, delete_collection,
}
use vector_sync.Handlers.Metadata.{Protobuf, Structs, from_structs, to_structs}

-- `pb.CreateCollectionRequest`
pub record CreateRequest (S : Type 0) : Type 0 where
  pub name : String
  pub vector_dimension : ℤ
  pub metadata_schema : Option (Structs S)
  pub distance_metric : String
  pub embedding_provider : String
  pub embedding_model : String

-- `pb.Collection`
pub record CollectionMessage (S T : Type 0) : Type 0 where
  pub id : String
  pub created_at : T
  pub updated_at : T
  pub name : String
  pub vector_dimension : ℤ
  pub metadata_schema : Structs S
  pub document_count : ℤ
  pub distance_metric : String
  pub embedding_provider : String
  pub embedding_model : String

pub record Deleted (T : Type 0) : Type 0 where
  pub id : String
  pub deleted_at : T
  pub document_deleted : ℤ

module _ {S M V T : Type 0} (protobuf : Protobuf S M V T) where
  -- `convertToProtoCollection`
  unfoldable pub to_message : Collection V → CollectionMessage S T
  to_message c = record {
    id = c.id;
    created_at = protobuf.timestamp c.created_at;
    updated_at = protobuf.timestamp c.updated_at;
    name = c.name;
    vector_dimension = to_int32 c.vector_dimension;
    metadata_schema = to_structs protobuf c.metadata_schema;
    document_count = c.document_count;
    distance_metric = c.distance_metric;
    embedding_provider = c.embedding_provider;
    embedding_model = c.embedding_model;
  }

module _ {S M V T W : Type 0} (protobuf : Protobuf S M V T) (repo : CollectionRepository V W) where
  -- `CreateCollection`
  unfoldable pub handle_create : CreateRequest S → Exec W (CollectionMessage S T)
  handle_create request = do
    collection ←
        create_collection repo request.name request.vector_dimension
          (from_structs protobuf request.metadata_schema) request.distance_metric
          request.embedding_provider request.embedding_model
    pure (to_message protobuf collection)

  -- `ListCollections`
  unfoldable pub handle_list : ℤ → ℤ → Exec W (List (CollectionMessage S T))
  handle_list limit offset = do
    collections ← list_collections repo limit offset
    pure (map (to_message protobuf) collections)

  -- `ListCollection`
  unfoldable pub handle_get : String → Exec W (CollectionMessage S T)
  handle_get id = do collection ← list_collection repo id; pure (to_message protobuf collection)

-- `DeleteCollection`, at the time `now`
unfoldable pub handle_delete :
    {V T W : Type 0} → CollectionRepository V W → T → String → Exec W (Deleted T)
handle_delete repo now id = do
  count ← delete_collection repo id
  pure (record { id = id; deleted_at = now; document_deleted = count })
