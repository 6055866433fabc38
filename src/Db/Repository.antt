-- ===== src/Db/Repository.antt =====
-- internal/db/document_repo.go: the methods that write documents or search them, and the repository
-- as the services use it. What PostgreSQL answers is the parameter `Driver`; `format`, `parse`,
-- `marshal` and `unmarshal` are strconv's and encoding/json's.
pub mod Atomic
pub mod Stored
pub mod Queries
use vector_sync.Base.{
  ℕ, String, Bool, true, false, List, [], ◌∷◌, map, Option, none, some, if◌then◌else◌, length,
}
use vector_sync.Base.Int.{ℤ}
use vector_sync.Base.Text.{Bytes}
use vector_sync.Base.Exec.{
  Error, wrap_error, Result, ok, err, wrap_result, Exec, pure, lift, wrap, continue, ◌>>=◌, ◌>>◌,
}
use vector_sync.Models.{Metadata, Document}
use vector_sync.Services.Interfaces.{UpsertResult, SearchResult, DocumentRepository, Float32}
use vector_sync.Db.Vectors.{vector_to_string, string_to_vector}
use vector_sync.Db.Rows.{
  Row, Rows, then_result, read_metadata, read_document, scan_rows, Statements, list_rows, get_by_id,
  delete_batch, delete_by_id,
}
use vector_sync.Db.Statements.{Piece, Statement, Arg, search_statement}
use vector_sync.Db.Statements.Combined.{full_text_statement, hybrid_statement}
use vector_sync.Db.Statements.Batch.{prepare, check_marshalled, batch_query, value_loop}

-- The calls of database/sql, each with the values it binds; the statements that are the same for
-- every call are not kept. `rollback` is the deferred call, without effect behind a commit, and
-- `schedule` is the scheduler's.
pub record Driver (F J W : Type 0) : Type 0 where
  pub insert_row : String → Bytes → J → Bytes → Exec W Row
  pub upsert_row : String → String → Bytes → J → Bytes → Exec W (Row × Bool)
  pub select_scored : Statement (Arg F J) → Exec W (List (Result (Row × F)) × Option Error)
  -- the order in which the goroutines for so many documents write
  pub schedule : ℕ → List ℕ
  pub begin : Exec W (Unit {0})
  pub set_local : Exec W (Unit {0})
  pub insert_rows : List Piece → List (Arg F J) → Exec W Rows
  pub commit : Exec W (Unit {0})
  pub rollback : W → W
  pub statements : Statements W

-- The functions of strconv and encoding/json.
pub record Codec (F V J : Type 0) : Type 0 where
  pub format : F → Bytes
  pub parse : Bytes → Result F
  pub marshal : Metadata V → Result J
  pub unmarshal : Bytes → Result (Metadata V)
  -- a nil slice of bytes
  pub nil_json : J

module _ {F V J : Type 0} (codec : Codec F V J) where
  -- A row that `RETURNING` gives, without the vector.
  unfoldable pub read_returned : Row → Result (Document F V)
  read_returned row =
      wrap_result "failed to unmarshal metadata"
        (read_document codec.parse codec.unmarshal false row)

  -- The body of the loop of a search behind `rows.Scan`.
  unfoldable pub read_scored : Bool → Row × F → Result (SearchResult F V)
  read_scored include_vector (row, score) =
      then_result
        (if include_vector
          then wrap_result "failed to parse returned vector"
              (string_to_vector codec.parse row.vector_text)
          else ok [])
        λ vector.
          then_result
            (wrap_result "failed to unmarshal metadata"
              (read_metadata codec.parse codec.unmarshal row.metadata_bytes))
            λ metadata. ok (record {
              document = record {
                id = row.id;
                collection_id = row.collection_id;
                vector = vector;
                metadata = metadata;
                content = row.content;
                created_at = row.created_at;
                updated_at = row.updated_at;
              };
              score = score;
            })

  -- The loop over the rows of a search.
  unfoldable pub scan_scored :
      Bool → List (Result (Row × F)) → Option Error → Result (List (SearchResult F V))
  scan_scored include_vector [] none = ok []
  scan_scored include_vector [] (some e) = err (wrap_error "error iterating search results" e)
  scan_scored include_vector (row ∷ rows) last =
      then_result
        (then_result (wrap_result "failed to scan search result" row) (read_scored include_vector))
        λ result.
          then_result (scan_scored include_vector rows last) λ results. ok (result ∷ results)

  -- What `json.Marshal` makes of each entry of a filter.
  unfoldable pub filters : Metadata V → List (Result J)
  filters none = []
  filters (some entries) = map (λ entry. codec.marshal (some (entry ∷ []))) entries

module _ {F V J W : Type 0} (float : Float32 F) (codec : Codec F V J) (db : Driver F J W) where
  -- `Create`
  unfoldable pub create : String → Bytes → List F → Metadata V → Exec W (Document F V)
  create id content vector metadata = do
    json ← lift (wrap_result "failed to marshal metadata" (codec.marshal metadata))
    row ←
        wrap "failed to insert document"
          (db.insert_row id (vector_to_string codec.format vector) json content)
    lift (read_returned codec row)

  -- `Upsert`
  unfoldable pub upsert : String → String → Bytes → List F → Metadata V → Exec W (UpsertResult F V)
  upsert document_id id content vector metadata = do
    json ← lift (wrap_result "failed to marshal metadata" (codec.marshal metadata))
    row ←
        wrap "failed to upsert document"
          (db.upsert_row document_id id (vector_to_string codec.format vector) json content)
    document ← lift (read_returned codec (row.0))
    pure (record { document = document; is_new = row.1 })

  -- What the three searches do with their statement.
  unfoldable pub run_search : Bool → Statement (Arg F J) → Exec W (List (SearchResult F V))
  run_search include_vector statement = do
    rows ← wrap "failed to execute search query" (db.select_scored statement)
    lift (scan_scored codec include_vector (rows.0) (rows.1))

  -- `Search`
  unfoldable pub search :
      String → List F → ℤ → Metadata V → F → Bool → String → Exec W (List (SearchResult F V))
  search id query top_k filter min_threshold include_vector metric = do
    statement ← lift (
        search_statement float (vector_to_string codec.format query) id top_k (filters codec filter)
          min_threshold include_vector metric)
    run_search include_vector statement

  -- `FullTextSearch`
  unfoldable pub full_text_search : String → Bytes → ℤ → F → Bool → Exec W (List (SearchResult F V))
  full_text_search id query limit min_rank include_vector =
      run_search include_vector (full_text_statement float query id limit min_rank include_vector)

  -- `HybridSearch`
  unfoldable pub hybrid_search :
      String
      → Bytes
      → List F
      → ℤ
      → Metadata V
      → F
      → F
      → Bool
      → String
      → Exec W (List (SearchResult F V))
  hybrid_search id text query top_k filter vector_weight text_weight include_vector metric = do
    statement ← lift (
        hybrid_statement text id (vector_to_string codec.format query) top_k (filters codec filter)
          vector_weight text_weight include_vector metric)
    run_search include_vector statement

  -- The steps of `BatchInsert` inside the transaction.
  unfoldable pub insert_in_transaction : List (Document F V) → Exec W (ℕ × List (Document F V))
  insert_in_transaction docs = do
    wrap "failed to set synchronous_commit" db.set_local
    prepped ← lift (
        check_marshalled 0
          (prepare codec.format codec.marshal codec.nil_json (db.schedule (length docs)) docs))
    rows ← db.insert_rows (batch_query docs) (value_loop docs prepped)
    inserted ← lift (scan_rows codec.parse codec.unmarshal false (rows.0) (rows.1))
    wrap "failed to commit batch insert" db.commit
    pure (length inserted, inserted)

  -- `defer tx.Rollback()`
  abbrev pub then_rollback : {A : Type 0} → Exec W A → Exec W A
  then_rollback m w = let (r, w') = m w in (r, db.rollback w')

  -- `BatchInsert`, which takes the collection of each document from the document
  unfoldable pub insert_batch : String → List (Document F V) → Exec W (ℕ × List (Document F V))
  insert_batch id docs = do
    wrap "failed to begin transaction" db.begin
    then_rollback (insert_in_transaction docs)

  -- `NewDocumentRepo`
  abbrev pub document_repository : DocumentRepository F V W
  document_repository = record {
    create = create;
    upsert = upsert;
    list = list_rows codec.parse codec.unmarshal db.statements;
    get_by_id = get_by_id codec.parse codec.unmarshal db.statements;
    delete_by_id = delete_by_id db.statements;
    search = search;
    full_text_search = full_text_search;
    batch_insert = insert_batch;
    batch_delete = delete_batch codec.parse codec.unmarshal db.statements;
    hybrid_search = hybrid_search;
  }
