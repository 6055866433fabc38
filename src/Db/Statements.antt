-- ===== src/Db/Statements.antt =====
-- internal/db/document_repo.go: statements as pieces of text and placeholders, with the values they
-- bind, and the statement of `Search`; the children have those of the other searches (Combined) and of
-- a batch (Batch). `json.Marshal` of a filter is a parameter. White space is not kept.
pub mod Binding
pub mod Placeholders
pub mod Combined
pub mod Batch
use text.Mathlib.Text.{◌==◌}
use vector_sync.Base.{
  ℕ, zero, suc, ◌+◌, ◌*◌, String, Bool, true, false, List, [], ◌∷◌, ◌++◌, if◌then◌else◌, ltb,
}
use vector_sync.Base.Int.{ℤ}
use vector_sync.Base.Text.{Bytes}
use vector_sync.Base.Exec.{Error, wrap_error, Result, ok, err}
use vector_sync.Db.Rows.{then_result}
use vector_sync.Services.Interfaces.{Float32}

-- A piece of a statement: its text, or `$n`.
pub data Piece : Type 0 where
  sql : String → Piece
  placeholder : ℕ → Piece

-- `distanceOperator`
unfoldable pub distance_operator : String → String
distance_operator metric =
    if metric == "euclidean" then "<->" else if metric == "inner_product" then "<#>" else "<=>"

-- `similarityExpression`
unfoldable pub similarity_expression : String → List Piece → List Piece
similarity_expression metric dist =
    if metric == "euclidean"
    then sql "1.0 / (1.0 + (" ∷ (dist ++ sql "))" ∷ [])
    else if metric == "inner_product"
    then sql "(" ∷ (dist ++ sql ") * -1" ∷ [])
    else sql "1 - (" ∷ (dist ++ sql ")" ∷ [])

-- A statement under construction: the query, and the values in `args`.
pub record Statement (A : Type 0) : Type 0 where
  pub query : List Piece
  pub args : List A
  pub arg_index : ℕ

module _ {A : Type 0} where
  -- The query goes on with a text, the next placeholder and a text; its value is appended.
  unfoldable pub bind : List Piece → String → A → Statement A → Statement A
  bind before after value s = record {
    query = s.query ++ (before ++ (placeholder s.arg_index ∷ sql after ∷ []));
    args = s.args ++ value ∷ [];
    arg_index = s.arg_index + 1;
  }

-- The values that are bound.
pub data Arg (F J : Type 0) : Type 0 where
  text_arg : Bytes → Arg F J
  id_arg : String → Arg F J
  json_arg : J → Arg F J
  float_arg : F → Arg F J
  count_arg : ℤ → Arg F J

-- The distance to the query vector, which is the value `n`.
unfoldable pub distance_expression : String → ℕ → List Piece
distance_expression metric n =
    sql "vector " ∷ sql (distance_operator metric) ∷ sql " " ∷ placeholder n ∷ sql "::vector" ∷ []

module _ {F J : Type 0} where
  -- The loop over the metadata filter, in the order of its iteration, each entry as `json.Marshal` gives it.
  unfoldable pub filter_loop : List (Result J) → Statement (Arg F J) → Result (Statement (Arg F J))
  filter_loop [] s = ok s
  filter_loop (err e ∷ filters) s = err (wrap_error "failed to marshal metadata filter" e)
  filter_loop (ok json ∷ filters) s =
      filter_loop filters (bind (sql " AND metadata @> " ∷ []) "::jsonb" (json_arg json) s)

  -- The statement before the filters.
  unfoldable pub search_start : Bytes → String → Bool → String → Statement (Arg F J)
  search_start vector_text id include_vector metric = record {
    query =
        (sql "SELECT id, collection_id, "
          ∷ sql (if include_vector then "vector, " else "")
          ∷ sql "metadata, content, created_at, updated_at, "
          ∷ similarity_expression metric (distance_expression metric 1))
        ++ (sql " AS similarity FROM documents WHERE collection_id = " ∷ placeholder 2 ∷ []);
    args = text_arg vector_text ∷ id_arg id ∷ [];
    arg_index = 3;
  }

  -- The threshold, the order and the limit.
  unfoldable pub search_end : Bool → F → ℤ → String → Statement (Arg F J) → Statement (Arg F J)
  search_end with_threshold min_threshold top_k metric s =
      let above =
        if with_threshold
        then bind
            (sql " AND ("
              ∷ (similarity_expression metric (distance_expression metric 1) ++ sql ") >= " ∷ []))
            "" (float_arg min_threshold) s
        else s in
      bind (sql " ORDER BY " ∷ (distance_expression metric 1 ++ sql " LIMIT " ∷ [])) ""
        (count_arg top_k) above

  -- The statement of `Search`, up to white space.
  unfoldable pub search_statement :
      Float32 F
      → Bytes
      → String
      → ℤ
      → List (Result J)
      → F
      → Bool
      → String
      → Result (Statement (Arg F J))
  search_statement float vector_text id top_k filters min_threshold include_vector metric =
      then_result (filter_loop filters (search_start vector_text id include_vector metric))
        λ s. ok (search_end (float.lt float.zero min_threshold) min_threshold top_k metric s)
