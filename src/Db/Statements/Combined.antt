-- ===== src/Db/Statements/Combined.antt =====
-- internal/db/document_repo.go: the statements of `FullTextSearch` and `HybridSearch`.
pub mod Placeholders
use vector_sync.Base.{
  ℕ, ◌+◌, String, Bool, true, false, List, [], ◌∷◌, ◌++◌, if◌then◌else◌, is_empty,
}
use vector_sync.Base.Int.{ℤ}
use vector_sync.Base.Text.{Bytes}
use vector_sync.Base.Exec.{Result, ok, err}
use vector_sync.Db.Rows.{then_result}
use vector_sync.Db.Statements.{
  Piece, sql, placeholder, similarity_expression, distance_expression, Statement, bind, Arg,
  text_arg, id_arg, float_arg, count_arg, filter_loop,
}
use vector_sync.Services.Interfaces.{Float32}

-- The columns of a row, with the vector if it is asked for.
abbrev pub columns : Bool → List Piece
columns include_vector =
    sql "id, collection_id, "
    ∷ sql (if include_vector then "vector, " else "")
    ∷ sql "metadata, content, created_at, updated_at, "
    ∷ []

-- The rank of a document's text for the query, which is the first value.
abbrev pub rank_expression : List Piece
rank_expression =
    sql "ts_rank(to_tsvector('english', COALESCE(content, '')), plainto_tsquery('english', "
    ∷ placeholder 1
    ∷ sql "))"
    ∷ []

-- The condition on the collection, the value `n`, and on the text.
abbrev pub text_condition : List Piece
text_condition =
    sql " FROM documents WHERE collection_id = "
    ∷ placeholder 2
    ∷ sql " AND to_tsvector('english', COALESCE(content, '')) @@ plainto_tsquery('english', "
    ∷ placeholder 1
    ∷ sql ")"
    ∷ []

module _ {F J : Type 0} where
  unfoldable pub full_text_start : Bytes → String → Bool → Statement (Arg F J)
  full_text_start query id include_vector = record {
    query =
        (sql "SELECT " ∷ columns include_vector)
        ++ (rank_expression ++ (sql " as rank" ∷ text_condition));
    args = text_arg query ∷ id_arg id ∷ [];
    arg_index = 3;
  }

  unfoldable pub full_text_end : Bool → F → ℤ → Statement (Arg F J) → Statement (Arg F J)
  full_text_end with_rank min_rank limit s =
      let above =
        if with_rank
        then bind (sql " AND " ∷ (rank_expression ++ sql " >= " ∷ [])) "" (float_arg min_rank) s
        else s in
      bind (sql " ORDER BY rank DESC LIMIT " ∷ []) "" (count_arg limit) above

  -- The statement of `FullTextSearch`
  unfoldable pub full_text_statement :
      Float32 F → Bytes → String → ℤ → F → Bool → Statement (Arg F J)
  full_text_statement float query id limit min_rank include_vector =
      full_text_end (float.lt float.zero min_rank) min_rank limit
        (full_text_start query id include_vector)

  -- `if queryText != "" { … } else { … }`
  unfoldable pub hybrid_start : Bytes → String → Bytes → Bool → String → Statement (Arg F J)
  hybrid_start text id vector_text include_vector metric =
      if is_empty text
      then record {
        query =
            (sql "WITH scored AS ( SELECT " ∷ columns include_vector)
            ++ ((sql "0::float as fts_score, "
                  ∷ similarity_expression metric (distance_expression metric 2))
                ++ (sql " AS vector_score FROM documents WHERE collection_id = "
                    ∷ placeholder 1
                    ∷ []));
        args = id_arg id ∷ text_arg vector_text ∷ [];
        arg_index = 3;
      }
      else record {
        query =
            (sql "WITH scored AS ( SELECT " ∷ columns include_vector)
            ++ ((rank_expression
                  ++ (sql " as fts_score, "
                      ∷ similarity_expression metric (distance_expression metric 3)))
                ++ (sql " AS vector_score" ∷ text_condition));
        args = text_arg text ∷ id_arg id ∷ text_arg vector_text ∷ [];
        arg_index = 4;
      }

  -- The weighted score, the order and the limit.
  unfoldable pub hybrid_end : Bool → F → F → ℤ → Statement (Arg F J) → Statement (Arg F J)
  hybrid_end include_vector text_weight vector_weight top_k s =
      let text_bound =
        bind ((sql ") SELECT " ∷ columns include_vector) ++ sql "(" ∷ []) " * fts_score) + ("
          (float_arg text_weight) s in
      let vector_bound =
        bind [] " * vector_score) AS combined_score FROM scored ORDER BY combined_score DESC LIMIT "
          (float_arg vector_weight) text_bound in
      bind [] "" (count_arg top_k) vector_bound

  -- The statement of `HybridSearch`
  unfoldable pub hybrid_statement :
      Bytes
      → String
      → Bytes
      → ℤ
      → List (Result J)
      → F
      → F
      → Bool
      → String
      → Result (Statement (Arg F J))
  hybrid_statement text id vector_text top_k filters vector_weight text_weight include_vector
        metric =
      then_result (filter_loop filters (hybrid_start text id vector_text include_vector metric))
        λ s. ok (hybrid_end include_vector text_weight vector_weight top_k s)
