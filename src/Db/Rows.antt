-- ===== src/Db/Rows.antt =====
-- internal/db/document_repo.go: the loops over the rows of a query, and the methods that consist of
-- one statement. What database/sql gives for a statement is a parameter: an error, or the rows,
-- each of which may fail to scan, and the error behind them.
pub mod Complete
use vector_sync.Base.{
  ℕ, String, Bool, true, false, List, [], ◌∷◌, Option, none, some, if◌then◌else◌, length, is_empty,
}
use vector_sync.Base.Int.{ℤ, pos, is_zero}
use vector_sync.Base.Text.{Bytes}
use vector_sync.Base.Exec.{Error, no_rows, Result, ok, err, Exec}
use vector_sync.Models.{Metadata, Document}
use vector_sync.Db.Vectors.{string_to_vector}

-- What `rows.Scan` fills; the vector is in the rows of the queries that ask for it.
pub record Row : Type 0 where
  pub id : String
  pub collection_id : String
  pub vector_text : Bytes
  pub metadata_bytes : Bytes
  pub content : Bytes
  pub created_at : ℕ
  pub updated_at : ℕ

abbrev pub Rows : Type 0
Rows = List (Result Row) × Option Error

abbrev pub then_result : {A B : Type 0} → Result A → (A → Result B) → Result B
then_result (ok a) f = f a
then_result (err e) f = err e

module _ {F V : Type 0} (parse : Bytes → Result F) (unmarshal : Bytes → Result (Metadata V)) where
  -- `if len(metadataBytes) > 0 { json.Unmarshal(…) }`
  unfoldable pub read_metadata : Bytes → Result (Metadata V)
  read_metadata bytes = if is_empty bytes then ok none else unmarshal bytes

  -- The body of the loop behind `rows.Scan`.
  unfoldable pub read_document : Bool → Row → Result (Document F V)
  read_document include_vector row =
      then_result (if include_vector then string_to_vector parse row.vector_text else ok [])
        λ vector. then_result (read_metadata row.metadata_bytes) λ metadata. ok (record {
          id = row.id;
          collection_id = row.collection_id;
          vector = vector;
          metadata = metadata;
          content = row.content;
          created_at = row.created_at;
          updated_at = row.updated_at;
        })

  -- One round of the loop.
  unfoldable pub read_row : Bool → Result Row → Result (Document F V)
  read_row include_vector (err e) = err e
  read_row include_vector (ok row) = read_document include_vector row

  -- `for rows.Next() { … }` and the check of `rows.Err()` behind it.
  unfoldable pub scan_rows : Bool → List (Result Row) → Option Error → Result (List (Document F V))
  scan_rows include_vector [] none = ok []
  scan_rows include_vector [] (some e) = err e
  scan_rows include_vector (row ∷ rows) last = then_result (read_row include_vector row) λ document.
      then_result (scan_rows include_vector rows last) λ documents. ok (document ∷ documents)

-- The statements that the methods run, and the values they bind.
pub record Statements (W : Type 0) : Type 0 where
  pub select_page : String → ℤ → ℤ → Bool → W → Result Rows × W
  pub select_by_id : String → W → Result Row × W
  pub delete_row : String → W → Result (Result ℤ) × W
  pub delete_rows : List String → String → W → Result Rows × W

module _ {F V W : Type 0} (parse : Bytes → Result F) (unmarshal : Bytes → Result (Metadata V))
    (db : Statements W) where
  -- `List`
  unfoldable pub list_rows : String → ℤ → ℤ → Bool → Exec W (List (Document F V))
  list_rows id limit offset include_vector w =
      let (answer, w') = db.select_page id limit offset include_vector w in
      (then_result answer (λ rows. scan_rows parse unmarshal include_vector (rows.0) (rows.1)), w')

  -- `GetById`
  unfoldable pub get_by_id : String → Exec W (Document F V)
  get_by_id id w =
      let (answer, w') = db.select_by_id id w in
      (then_result answer (read_document parse unmarshal true), w')

  -- `BatchDelete`
  unfoldable pub delete_batch : String → List String → Exec W (ℕ × List (Document F V))
  delete_batch id document_ids w =
      let (answer, w') = db.delete_rows document_ids id w in
      (
        then_result answer λ rows.
            then_result (scan_rows parse unmarshal false (rows.0) (rows.1))
              λ documents. ok (length documents, documents),
        w',
      )

-- `DeleteById`
unfoldable pub delete_by_id : {W : Type 0} → Statements W → String → Exec W (Unit {0})
delete_by_id db id w =
    let (answer, w') = db.delete_row id w in
    (
      then_result answer
          λ affected. then_result affected λ n. if is_zero n then err no_rows else ok tt,
      w',
    )
