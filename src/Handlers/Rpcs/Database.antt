-- ===== src/Handlers/Rpcs/Database.antt =====
-- The two repositories of internal/db over the driver, under the RPCs of the three services.
use vector_sync.Base.{String, ◌≡◌, refl, sym, ap, ◌∙◌, Bool, List, Option, some, All}
use vector_sync.Base.Int.{ℤ, to_int32}
use vector_sync.Base.Text.{Bytes}
use vector_sync.Base.Keeps.{Keeps, lift-Keeps, wrap-Keeps, then-Keeps}
use vector_sync.Base.Exec.{Result, ok, err, Exec, lift, wrap, continue-ok, ◌>>=◌}
use vector_sync.Models.{Metadata, Document}
use vector_sync.Cache.{CollectionInfo}
use vector_sync.Embedding.Interface.{Wire}
use vector_sync.Services.Interfaces.{Float32, Service}
use vector_sync.Services.Documents.Coherent.{Table, IsTold, IsCoherent, IsQuiet}
use vector_sync.Services.Documents.Coherent.Requests.{LeavesCollections}
use vector_sync.Services.Documents.Coherent.Clients.{LeavesTables}
use vector_sync.Db.Vectors.{vector_to_string}
use vector_sync.Db.Rows.{list_rows, get_by_id, delete_batch, delete_by_id}
use vector_sync.Db.Statements.{Statement, Arg, search_statement}
use vector_sync.Db.Statements.Combined.{full_text_statement, hybrid_statement}
use vector_sync.Db.Statements.Batch.{batch_query}
use vector_sync.Db.Repository.{
  Driver, Codec, filters, create, upsert, run_search, search as search_rows, full_text_search,
  hybrid_search, insert_in_transaction, then_rollback, insert_batch, document_repository,
}
use vector_sync.Db.Collections.{
  CollectionRow, CollectionDriver, create_index, or_blank, create_row, list_page, find_by_id,
  collection_repository,
}
use vector_sync.Db.Collections.Lookup.{read_collection-fields}
use vector_sync.Handlers.Metadata.{Protobuf}
use vector_sync.Handlers.Rpcs.{Rpc, after_rpcs}
use vector_sync.Handlers.Rpcs.Growing.{GrowsTables}
use vector_sync.Handlers.Rpcs.Coherent.{LeavesTable, services-IsCoherent}

-- What the cache would hold of a row.
abbrev pub row_entry : CollectionRow → CollectionInfo
row_entry row = record {
  dimension = to_int32 row.vector_dim;
  distance_metric = row.distance_metric;
  embedding_provider = or_blank row.embedding_provider;
  embedding_model = or_blank row.embedding_model;
}

-- What PostgreSQL promises of the table of collections: a row that it answers with is in the table, and a
-- row that is there stays there, with the columns that are cached, behind every statement that the
-- repositories run but the deletion of a collection.
pub record KeepsTable {F V J W : Type 0} (float : Float32 F) (codec : Codec F V J)
    (db : Driver F J W) (rows : CollectionDriver J W) (table : Table W) : Type 0 where
  pub row_is_held :
      (id : String) (w w' : W) (row : CollectionRow)
      → rows.select_collection id w ≡ (ok row, w')
      → table id w' ≡ some (row_entry row)
  pub select_quiet : (id : String) → IsQuiet table (rows.select_collection id)
  pub page_quiet : (limit offset : ℤ) → IsQuiet table (rows.select_collections limit offset)
  pub insert_quiet :
      (name : String) (dimension : ℤ) (json : J) (metric : String) (provider model : Option String)
      → IsQuiet table (rows.insert_collection name dimension json metric provider model)
  pub index_quiet :
      (indexed ops_class : String)
      → IsQuiet table (λ w. (ok (tt {0}), rows.spawn (create_index indexed ops_class) w))
  pub row_quiet :
      (id : String) (vector : Bytes) (json : J) (content : Bytes)
      → IsQuiet table (db.insert_row id vector json content)
  pub upsert_quiet :
      (d id : String) (vector : Bytes) (json : J) (content : Bytes)
      → IsQuiet table (db.upsert_row d id vector json content)
  pub search_quiet :
      (vector : Bytes) (id : String) (k : ℤ) (entries : List (Result J)) (threshold : F) (v : Bool)
      (metric : String) (statement : Statement (Arg F J))
      → search_statement float vector id k entries threshold v metric ≡ ok statement
      → IsQuiet table (db.select_scored statement)
  pub full_text_quiet :
      (query : Bytes) (id : String) (limit : ℤ) (rank : F) (v : Bool)
      → IsQuiet table (db.select_scored (full_text_statement float query id limit rank v))
  pub hybrid_quiet :
      (text : Bytes) (id : String) (vector : Bytes) (k : ℤ) (entries : List (Result J)) (a b : F)
      (v : Bool) (metric : String) (statement : Statement (Arg F J))
      → hybrid_statement text id vector k entries a b v metric ≡ ok statement
      → IsQuiet table (db.select_scored statement)
  pub begin_quiet : IsQuiet table db.begin
  pub set_local_quiet : IsQuiet table db.set_local
  pub batch_quiet :
      (docs : List (Document F V)) (args : List (Arg F J))
      → IsQuiet table (db.insert_rows (batch_query docs) args)
  pub commit_quiet : IsQuiet table db.commit
  pub rollback_quiet : IsQuiet table (λ w. (ok (tt {0}), db.rollback w))
  pub list_quiet :
      (id : String) (limit offset : ℤ) (v : Bool)
      → IsQuiet table (db.statements.select_page id limit offset v)
  pub get_quiet : (id : String) → IsQuiet table (db.statements.select_by_id id)
  pub delete_quiet : (id : String) → IsQuiet table (db.statements.delete_row id)
  pub delete_all_quiet :
      (ids : List String) (id : String) → IsQuiet table (db.statements.delete_rows ids id)

module _ {W : Type 0} (table : Table W) (name : String) (info : CollectionInfo) where
  -- What the table holds of one collection.
  abbrev Holds : W → Type 0
  Holds w = table name w ≡ some info

  quiet-Keeps : {A : Type 0} (m : Exec W A) → IsQuiet table m → Keeps Holds m
  quiet-Keeps m q = record { kept = λ w h. q w name info h }

  -- A step behind a pure one that has made `a`.
  made-Keeps :
      {A B : Type 0} (r : Result A) (f : A → Exec W B)
      → ((a : A) → r ≡ ok a → Keeps Holds (f a))
      → Keeps Holds (lift r >>= f)
  made-Keeps (ok a) f k = k a refl
  made-Keeps (err e) f k = lift-Keeps (err e)

module _ {F V J W : Type 0} (float : Float32 F) (codec : Codec F V J) (db : Driver F J W)
    (rows : CollectionDriver J W) (table : Table W)
    (laws : KeepsTable float codec db rows table) where
  module _ (name : String) (info : CollectionInfo) where
    create-Keeps :
        (id : String) (content : Bytes) (vector : List F) (metadata : Metadata V)
        → Keeps (Holds table name info) (create float codec db id content vector metadata)
    unfolding create
    create-Keeps id content vector metadata =
        search (then-Keeps, wrap-Keeps, quiet-Keeps, laws.row_quiet) depth 9

    upsert-Keeps :
        (d id : String) (content : Bytes) (vector : List F) (metadata : Metadata V)
        → Keeps (Holds table name info) (upsert float codec db d id content vector metadata)
    unfolding upsert
    upsert-Keeps d id content vector metadata =
        search (then-Keeps, wrap-Keeps, quiet-Keeps, laws.upsert_quiet) depth 9

    run_search-Keeps :
        (v : Bool) (statement : Statement (Arg F J))
        → IsQuiet table (db.select_scored statement)
        → Keeps (Holds table name info) (run_search float codec db v statement)
    unfolding run_search
    run_search-Keeps v statement q = search (then-Keeps, wrap-Keeps, quiet-Keeps, q) depth 9

    search-Keeps :
        (id : String) (query : List F) (k : ℤ) (filter : Metadata V) (threshold : F) (v : Bool)
        (metric : String)
        → Keeps
            (Holds table name info)
            (search_rows float codec db id query k filter threshold v metric)
    unfolding search_rows
    search-Keeps id query k filter threshold v metric =
        made-Keeps table name info _ (run_search float codec db v) λ statement e.
          run_search-Keeps v statement (
            laws.search_quiet (vector_to_string codec.format query) id k (filters codec filter)
              threshold v metric statement e)

    full_text-Keeps :
        (id : String) (query : Bytes) (limit : ℤ) (rank : F) (v : Bool)
        → Keeps (Holds table name info) (full_text_search float codec db id query limit rank v)
    unfolding full_text_search
    full_text-Keeps id query limit rank v =
        run_search-Keeps v _ (laws.full_text_quiet query id limit rank v)

    hybrid-Keeps :
        (id : String) (text : Bytes) (query : List F) (k : ℤ) (filter : Metadata V) (a b : F)
        (v : Bool) (metric : String)
        → Keeps
            (Holds table name info)
            (hybrid_search float codec db id text query k filter a b v metric)
    unfolding hybrid_search
    hybrid-Keeps id text query k filter a b v metric =
        made-Keeps table name info _ (run_search float codec db v) λ statement e.
          run_search-Keeps v statement (
            laws.hybrid_quiet text id (vector_to_string codec.format query) k (filters codec filter)
              a b v metric statement e)

    in_transaction-Keeps :
        (docs : List (Document F V))
        → Keeps (Holds table name info) (insert_in_transaction float codec db docs)
    unfolding insert_in_transaction
    in_transaction-Keeps docs =
        search
          (
            then-Keeps, lift-Keeps, quiet-Keeps, laws.set_local_quiet, laws.batch_quiet,
            laws.commit_quiet,
          )
          depth 14

    insert_batch-Keeps :
        (id : String) (docs : List (Document F V))
        → Keeps (Holds table name info) (insert_batch float codec db id docs)
    unfolding insert_batch
    insert_batch-Keeps id docs =
        then-Keeps (wrap "failed to begin transaction" db.begin)
          (λ _. then_rollback float codec db (insert_in_transaction float codec db docs))
          (wrap-Keeps _ db.begin (quiet-Keeps table name info db.begin laws.begin_quiet))
          (λ _. record {
            kept = λ w h. laws.rollback_quiet _ name info ((in_transaction-Keeps docs).kept w h);
          })

    create_row-Keeps :
        (n : String) (dimension : ℤ) (schema : Metadata V) (metric provider model : String)
        → Keeps
            (Holds table name info)
            (create_row codec.marshal codec.unmarshal rows n dimension schema metric provider model)
    unfolding create_row
    create_row-Keeps n dimension schema metric provider model =
        search (then-Keeps, quiet-Keeps, laws.insert_quiet, laws.index_quiet) depth 14

  find_by_id-IsQuiet :
      (id : String) → IsQuiet table (find_by_id codec.marshal codec.unmarshal rows id)
  unfolding find_by_id
  find_by_id-IsQuiet id w name info h =
      (then-Keeps (rows.select_collection id) _
          (quiet-Keeps table name info (rows.select_collection id) (laws.select_quiet id))
          (λ row. lift-Keeps _)).kept
        w h

  -- The collection that `ListById` answers with is in the table.
  find_by_id-IsTold : IsTold table (collection_repository codec.marshal codec.unmarshal rows)
  unfolding find_by_id
  find_by_id-IsTold id w w' c h =
      let (row, v, e, k) = continue-ok (rows.select_collection id w) _ c w' h in
      let fields =
        read_collection-fields codec.marshal codec.unmarshal rows row c (ap (λ r. r.0) k) in
      ap (table id) (ap (λ r. r.1) (sym k))
      ∙ laws.row_is_held id w v row e
      ∙ cc (fields.2, fields.3, fields.4, fields.5)

  repositories-LeavesCollections :
      LeavesCollections
        (document_repository float codec db)
        (collection_repository codec.marshal codec.unmarshal rows)
        table
  unfolding list_rows get_by_id delete_batch delete_by_id
  repositories-LeavesCollections = record {
    find_told = find_by_id-IsTold;
    find_quiet = find_by_id-IsQuiet;
    create_quiet = λ i content vector metadata w id info.
        (create-Keeps id info i content vector metadata).kept w;
    upsert_quiet = λ d i content vector metadata w id info.
        (upsert-Keeps id info d i content vector metadata).kept w;
    get_quiet = λ i w id info h. laws.get_quiet i w id info h;
    delete_quiet = λ i w id info h. laws.delete_quiet i w id info h;
    list_quiet = λ i limit offset v w id info h. laws.list_quiet i limit offset v w id info h;
    full_text_quiet =
        λ i query limit rank v w id info. (full_text-Keeps id info i query limit rank v).kept w;
    search_quiet = λ i query k filter threshold v metric w id info.
        (search-Keeps id info i query k filter threshold v metric).kept w;
    hybrid_quiet = λ i text query k filter a b v metric w id info.
        (hybrid-Keeps id info i text query k filter a b v metric).kept w;
    insert_all_quiet = λ i docs w id info. (insert_batch-Keeps id info i docs).kept w;
    delete_all_quiet = λ i ids w id info h. laws.delete_all_quiet ids i w id info h;
  }

  repositories-GrowsTables :
      (ping : Exec W (Unit {0}))
      → IsQuiet table ping
      → GrowsTables table (collection_repository codec.marshal codec.unmarshal rows) ping
  unfolding list_page
  repositories-GrowsTables ping quiet = record {
    create_grows = λ n dimension schema metric provider model id info.
        create_row-Keeps id info n dimension schema metric provider model;
    list_grows = λ limit offset id info.
        then-Keeps (rows.select_collections limit offset) _
          (quiet-Keeps table id info (rows.select_collections limit offset)
            (laws.page_quiet limit offset))
          (λ found. lift-Keeps _);
    ping_grows = λ id info. quiet-Keeps table id info ping quiet;
  }

  -- If every entry of the cache is what the table of the database holds of its collection (its dimension as an
  -- int32, its metric, its provider and its model), that is so too behind any RPCs of the three
  -- services but `DeleteCollection`, in any order, failed ones included. It asks that a row that
  -- PostgreSQL answers with is in the table, and that a row of the table keeps these columns behind
  -- each statement of the two repositories, a ping and a call of a provider, any of which may fail.
  pub after_rpcs-IsCoherent :
      {S M T : Type 0} (protobuf : Protobuf S M V T) (wire : Wire F W) (format : F → String)
      (ping : Exec W (Unit {0})) (quiet : IsQuiet table ping) (remote : LeavesTables wire table)
      (rs : List (Rpc F S T)) (s : Service W)
      → All LeavesTable rs
      → IsCoherent table s
      → IsCoherent table (
          after_rpcs protobuf float wire format ping
            (document_repository float codec db)
            (collection_repository codec.marshal codec.unmarshal rows)
            rs
            s)
  after_rpcs-IsCoherent protobuf wire format ping quiet remote rs s l h =
      services-IsCoherent protobuf float wire format ping (document_repository float codec db)
        (collection_repository codec.marshal codec.unmarshal rows) table
        repositories-LeavesCollections remote (repositories-GrowsTables ping quiet) rs s l h
