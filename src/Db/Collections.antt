-- ===== src/Db/Collections.antt =====
-- internal/db/collection_repo.go: the repository of the collections. What PostgreSQL answers is the
-- parameter `CollectionDriver`, `marshal` and `unmarshal` are encoding/json's.
pub mod Rows
pub mod Lookup
use text.Mathlib.Text.{◌==◌}
use vector_sync.Base.{
  ℕ, String, true, false, List, [], ◌∷◌, ◌++◌, Option, none, some, if◌then◌else◌, is_empty,
}
use vector_sync.Base.Int.{ℤ}
use vector_sync.Base.Text.{Bytes, codes}
use vector_sync.Base.Exec.{Error, Result, ok, err, Exec, pure, lift, ◌>>=◌, ◌>>◌}
use vector_sync.Models.{Metadata, Collection}
use vector_sync.Services.Collections.{default_metric}
use vector_sync.Services.Interfaces.{CollectionRepository}
use vector_sync.Db.Rows.{then_result}

-- What `rows.Scan` fills; a `sql.NullString` that is not valid is `none`.
pub record CollectionRow : Type 0 where
  pub id : String
  pub name : String
  pub vector_dim : ℤ
  pub distance_metric : String
  pub metadata_bytes : Bytes
  pub embedding_provider : Option String
  pub embedding_model : Option String
  pub created_at : ℕ
  pub updated_at : ℕ
  pub document_count : ℤ

-- The calls of database/sql with the values they bind. `spawn` hands a statement to a goroutine,
-- which runs it at some later time and drops or counts its error.
pub record CollectionDriver (J W : Type 0) : Type 0 where
  pub insert_collection :
      String → ℤ → J → String → Option String → Option String → Exec W CollectionRow
  pub select_collections : ℤ → ℤ → Exec W (List (Result CollectionRow) × Option Error)
  pub select_collection : String → Exec W CollectionRow
  pub select_by_name : String → Exec W CollectionRow
  pub delete_collection : String → Exec W ℤ
  pub spawn : Bytes → W → W

-- `distanceMetricOpsClass`
unfoldable pub distance_metric_ops_class : String → String
distance_metric_ops_class metric =
    if metric == "euclidean"
    then "vector_l2_ops"
    else if metric == "inner_product"
    then "vector_ip_ops"
    else "vector_cosine_ops"

-- `idx_hnsw_%s`
unfoldable pub index_name : String → Bytes
index_name id = codes "idx_hnsw_" ++ codes id

-- The statement that builds the index of a collection, with one space for each line break.
unfoldable pub create_index : String → String → Bytes
unfolding index_name
create_index id ops_class =
    codes "CREATE INDEX IF NOT EXISTS "
    ++ (index_name id
        ++ (codes " ON documents USING hnsw (vector "
            ++ (codes ops_class
                ++ (codes ") WITH (m = 16, ef_construction = 64) WHERE collection_id = '"
                    ++ (codes id ++ codes "'")))))

unfoldable pub drop_index : String → Bytes
unfolding index_name
drop_index id = codes "DROP INDEX IF EXISTS " ++ index_name id

-- `if s != "" { sql.NullString{String: s, Valid: true} }`
unfoldable pub null_string : String → Option String
null_string s = if s == "" then none else some s

-- `if s.Valid { … = s.String }`, over a field that is empty before.
abbrev pub or_blank : Option String → String
or_blank none = ""
or_blank (some s) = s

module _ {V : Type 0} (unmarshal : Bytes → Result (Metadata V)) where
  -- `if len(metadataBytes) > 0 { json.Unmarshal(…) }`
  unfoldable pub read_schema : Bytes → Result (Metadata V)
  read_schema bytes = if is_empty bytes then ok none else unmarshal bytes

  -- `scanCollection` behind `row.Scan`, and the same steps of `Create`
  unfoldable pub read_collection : CollectionRow → Result (Collection V)
  read_collection row = then_result (read_schema row.metadata_bytes) λ schema. ok (record {
    id = row.id;
    name = row.name;
    vector_dimension = row.vector_dim;
    distance_metric = row.distance_metric;
    metadata_schema = schema;
    embedding_provider = or_blank row.embedding_provider;
    embedding_model = or_blank row.embedding_model;
    created_at = row.created_at;
    updated_at = row.updated_at;
    document_count = row.document_count;
  })

  -- `scanCollection`
  unfoldable pub scan_collection : Result CollectionRow → Result (Collection V)
  scan_collection row = then_result row read_collection

  -- The loop of `List`; no one asks for the error behind the rows.
  unfoldable pub scan_collections : List (Result CollectionRow) → Result (List (Collection V))
  scan_collections [] = ok []
  scan_collections (row ∷ rows) =
      then_result (scan_collection row) λ collection.
        then_result (scan_collections rows) λ collections. ok (collection ∷ collections)

module _ {V J W : Type 0} (marshal : Metadata V → Result J)
    (unmarshal : Bytes → Result (Metadata V)) (db : CollectionDriver J W) where
  -- `go func() { … }()`
  abbrev pub spawn_statement : Bytes → Exec W (Unit {0})
  spawn_statement statement w = (ok tt, db.spawn statement w)

  -- `Create`
  unfoldable pub create_row :
      String → ℤ → Metadata V → String → String → String → Exec W (Collection V)
  create_row name dimension schema metric provider model = do
    let metric' = default_metric metric
    json ← lift (marshal schema)
    row ←
        db.insert_collection name dimension json metric' (null_string provider) (null_string model)
    collection ← lift (read_collection unmarshal row)
    spawn_statement (create_index collection.id (distance_metric_ops_class metric'))
    pure collection

  -- `List`
  unfoldable pub list_page : ℤ → ℤ → Exec W (List (Collection V))
  list_page limit offset = do
    rows ← db.select_collections limit offset
    lift (scan_collections unmarshal (rows.0))

  -- `ListById`
  unfoldable pub find_by_id : String → Exec W (Collection V)
  find_by_id id = do row ← db.select_collection id; lift (read_collection unmarshal row)

  -- `DeleteById`
  unfoldable pub delete_row : String → Exec W ℤ
  delete_row id = do count ← db.delete_collection id; spawn_statement (drop_index id); pure count

  -- `GetCollectionByName`
  unfoldable pub get_collection_by_name : String → Exec W (Collection V)
  get_collection_by_name name = do
    row ← db.select_by_name name
    lift (read_collection unmarshal row)

  -- `NewCollectionRepo`, as the services use it
  abbrev pub collection_repository : CollectionRepository V W
  collection_repository = record {
    create = create_row;
    list = list_page;
    list_by_id = find_by_id;
    delete_by_id = delete_row;
  }
