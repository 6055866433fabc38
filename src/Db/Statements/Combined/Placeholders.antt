-- ===== src/Db/Statements/Combined/Placeholders.antt =====
-- The placeholders of `FullTextSearch` and `HybridSearch` and the values they name.
use mathlib.Core.Path.{subst}
use vector_sync.Base.{
  ℕ, ◌≤◌, String, ◌≡◌, refl, sym, ap, ◌∙◌, Bool, true, false, List, [], ◌∷◌, ◌++◌, append_assoc,
  map, arith, length, All, All-append,
}
use vector_sync.Base.Int.{ℤ}
use vector_sync.Base.Text.{Bytes}
use vector_sync.Base.Exec.{Result, ok, err}
use vector_sync.Services.Interfaces.{Float32}
use vector_sync.Db.Rows.{then_result}
use vector_sync.Db.Statements.{
  Piece, sql, placeholder, similarity_expression, distance_expression, Statement, bind, Arg,
  text_arg, id_arg, json_arg, float_arg, count_arg, filter_loop,
}
use vector_sync.Db.Statements.Binding.{
  IsBound, IsBinding, IsSearch, bind-IsSearch, distance_expression-IsBound,
  similarity_expression-IsBound, ok-injective, filter_loop-IsSearch, filter_loop-args,
}
use vector_sync.Db.Statements.Combined.{
  columns, rank_expression, text_condition, full_text_start, full_text_end, full_text_statement,
  hybrid_start, hybrid_end, hybrid_statement,
}

columns-IsBound : (n : ℕ) (include_vector : Bool) → All (IsBound n) (columns include_vector)
columns-IsBound n include_vector = (tt, (tt, (tt, tt)))

module _ (n : ℕ) (two : 2 ≤ n) where
  rank_expression-IsBound : All (IsBound n) rank_expression
  rank_expression-IsBound = (tt, ((omega arith, omega (arith, two)), (tt, tt)))

  text_condition-IsBound : All (IsBound n) text_condition
  text_condition-IsBound =
      (tt, ((omega arith, two), (tt, ((omega arith, omega (arith, two)), (tt, tt)))))

  similarity-IsBound :
      (k : ℕ) (metric : String)
      → 1 ≤ k
      → k ≤ n
      → All (IsBound n) (similarity_expression metric (distance_expression metric k))
  similarity-IsBound k metric low high =
      similarity_expression-IsBound n metric (distance_expression metric k)
        (distance_expression-IsBound n k metric low high)

All-join :
    (n : ℕ) (ps qs rs : List Piece)
    → All (IsBound n) ps
    → All (IsBound n) qs
    → All (IsBound n) rs
    → All (IsBound n) (ps ++ (qs ++ rs))
All-join n ps qs rs h k l =
    All-append (IsBound n) ps (qs ++ rs) h (All-append (IsBound n) qs rs k l)

full_text_start-IsSearch :
    (F J : Type 0) (query : Bytes) (id : String) (include_vector : Bool)
    → IsSearch (full_text_start {F = F} {J = J} query id include_vector)
unfolding full_text_start
full_text_start-IsSearch F J query id include_vector = (
  (
    refl,
    All-join 2 (sql "SELECT " ∷ columns include_vector) rank_expression
        (sql " as rank" ∷ text_condition) (tt, columns-IsBound 2 include_vector)
        (rank_expression-IsBound 2 (omega arith)) (tt, text_condition-IsBound 2 (omega arith)),
  ),
  omega arith,
)

hybrid_start-IsSearch :
    (F J : Type 0) (text : Bytes) (id : String) (vector_text : Bytes) (include_vector : Bool)
    (metric : String)
    → IsSearch (hybrid_start {F = F} {J = J} text id vector_text include_vector metric)
unfolding hybrid_start
hybrid_start-IsSearch F J [] id vector_text include_vector metric = (
  (
    refl,
    All-join 2 (sql "WITH scored AS ( SELECT " ∷ columns include_vector)
        (sql "0::float as fts_score, "
          ∷ similarity_expression metric (distance_expression metric 2))
        (sql " AS vector_score FROM documents WHERE collection_id = " ∷ placeholder 1 ∷ [])
        (tt, columns-IsBound 2 include_vector)
        (tt, similarity-IsBound 2 (omega arith) 2 metric (omega arith) (omega arith))
        (tt, ((omega arith, omega arith), tt)),
  ),
  omega arith,
)
hybrid_start-IsSearch F J (c ∷ text) id vector_text include_vector metric = (
  (
    refl,
    All-join 3 (sql "WITH scored AS ( SELECT " ∷ columns include_vector)
        (rank_expression
          ++ (sql " as fts_score, " ∷ similarity_expression metric (distance_expression metric 3)))
        (sql " AS vector_score" ∷ text_condition) (tt, columns-IsBound 3 include_vector)
        (All-append (IsBound 3) rank_expression
          (sql " as fts_score, " ∷ similarity_expression metric (distance_expression metric 3))
          (rank_expression-IsBound 3 (omega arith))
          (tt, similarity-IsBound 3 (omega arith) 3 metric (omega arith) (omega arith)))
        (tt, text_condition-IsBound 3 (omega arith)),
  ),
  omega arith,
)

module _ {F J : Type 0} where
  full_text_end-IsSearch :
      (with_rank : Bool) (min_rank : F) (limit : ℤ) (s : Statement (Arg F J))
      → IsSearch s
      → IsSearch (full_text_end with_rank min_rank limit s)
  unfolding full_text_end
  full_text_end-IsSearch true min_rank limit s h =
      bind-IsSearch _ "" (count_arg limit) _
        (bind-IsSearch _ "" (float_arg min_rank) s h (
          tt,
          All-append (IsBound (length s.args)) rank_expression (sql " >= " ∷ [])
              (rank_expression-IsBound (length s.args) (h.1)) (tt, tt),
        ))
        (tt, tt)
  full_text_end-IsSearch false min_rank limit s h =
      bind-IsSearch _ "" (count_arg limit) s h (tt, tt)

  hybrid_end-IsSearch :
      (include_vector : Bool) (text_weight vector_weight : F) (top_k : ℤ) (s : Statement (Arg F J))
      → IsSearch s
      → IsSearch (hybrid_end include_vector text_weight vector_weight top_k s)
  unfolding hybrid_end
  hybrid_end-IsSearch include_vector text_weight vector_weight top_k s h =
      bind-IsSearch [] "" (count_arg top_k) _
        (bind-IsSearch [] _ (float_arg vector_weight) _
          (bind-IsSearch _ _ (float_arg text_weight) s h (tt, (tt, (tt, (tt, (tt, tt)))))) tt)
        tt

  hybrid_end-args :
      (include_vector : Bool) (text_weight vector_weight : F) (top_k : ℤ) (s : Statement (Arg F J))
      → (hybrid_end include_vector text_weight vector_weight top_k s).args
        ≡ s.args ++ (float_arg text_weight ∷ float_arg vector_weight ∷ count_arg top_k ∷ [])
  unfolding hybrid_end bind
  hybrid_end-args include_vector text_weight vector_weight top_k s = simp (append_assoc)

  -- What `HybridSearch` binds first: the text only if there is one.
  abbrev pub hybrid_first : Bytes → String → Bytes → List (Arg F J)
  hybrid_first [] id vector_text = id_arg id ∷ text_arg vector_text ∷ []
  hybrid_first (c ∷ text) id vector_text =
      text_arg (c ∷ text) ∷ id_arg id ∷ text_arg vector_text ∷ []

  hybrid_start-args :
      (text : Bytes) (id : String) (vector_text : Bytes) (include_vector : Bool) (metric : String)
      → (hybrid_start {F = F} {J = J} text id vector_text include_vector metric).args
        ≡ hybrid_first text id vector_text
  unfolding hybrid_start
  hybrid_start-args [] id vector_text include_vector metric = refl
  hybrid_start-args (c ∷ text) id vector_text include_vector metric = refl

  -- The statement of `HybridSearch` is built only when every entry of the filter marshals. Its placeholders each name a
  -- value that is bound, and the values are, in order, the text if there is one, the collection and the
  -- vector, the filter's entries, the weight of the text, that of the vector, and the limit.
  pub hybrid_statement-binds :
      (text : Bytes) (id : String) (vector_text : Bytes) (top_k : ℤ) (filters : List (Result J))
      (vector_weight text_weight : F) (include_vector : Bool) (metric : String)
      (s : Statement (Arg F J))
      → hybrid_statement text id vector_text top_k filters vector_weight text_weight include_vector
          metric
        ≡ ok s
      → IsBinding s
        × (js : List J) × (filters ≡ map ok js)
        × (s.args
            ≡ hybrid_first text id vector_text
              ++ (map json_arg js
                  ++ (float_arg text_weight ∷ float_arg vector_weight ∷ count_arg top_k ∷ [])))
  unfolding hybrid_statement
  hybrid_statement-binds text id vector_text top_k filters vector_weight text_weight include_vector
        metric s e =
      built (filter_loop filters (hybrid_start text id vector_text include_vector metric)) refl e
    where
      values : List (Arg F J)
      values = float_arg text_weight ∷ float_arg vector_weight ∷ count_arg top_k ∷ []

      built :
          (q : Result (Statement (Arg F J)))
          → filter_loop filters (hybrid_start text id vector_text include_vector metric) ≡ q
          → then_result q (λ t. ok (hybrid_end include_vector text_weight vector_weight top_k t))
            ≡ ok s
          → IsBinding s
            × (js : List J) × (filters ≡ map ok js)
            × (s.args ≡ hybrid_first text id vector_text ++ (map json_arg js ++ values))
      built (err x) h e = ground arith
      built (ok t) h e =
          let (js, f, a) = filter_loop-args filters _ t h in
          let done =
            ok-injective (hybrid_end include_vector text_weight vector_weight top_k t) s e in
          (
            subst IsBinding done
                (hybrid_end-IsSearch include_vector text_weight vector_weight top_k t (
                  filter_loop-IsSearch filters _ t
                    (hybrid_start-IsSearch F J text id vector_text include_vector metric) h)).0,
            js,
            f,
            ap (λ r. r.args) (sym done)
                ∙ hybrid_end-args include_vector text_weight vector_weight top_k t
                ∙ ap (λ r. r ++ values)
                    (a
                      ∙ ap (λ r. r ++ map json_arg js)
                          (hybrid_start-args text id vector_text include_vector metric))
                ∙ append_assoc (hybrid_first text id vector_text) (map json_arg js) values,
          )

-- In the statement of `FullTextSearch` every placeholder names one of the values that are bound.
pub full_text_statement-IsBinding :
    (F J : Type 0) (float : Float32 F) (query : Bytes) (id : String) (limit : ℤ) (min_rank : F)
    (include_vector : Bool)
    → IsBinding (full_text_statement {J = J} float query id limit min_rank include_vector)
unfolding full_text_statement
full_text_statement-IsBinding F J float query id limit min_rank include_vector =
    (full_text_end-IsSearch _ min_rank limit _
      (full_text_start-IsSearch F J query id include_vector)).0
