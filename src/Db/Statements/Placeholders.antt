-- ===== src/Db/Statements/Placeholders.antt =====
-- The placeholders of a statement and the values it binds.
use mathlib.Core.Path.{subst}
use vector_sync.Base.{
  String, ◌≡◌, refl, sym, ap, ◌∙◌, append_assoc, map, Bool, true, false, List, [], ◌∷◌, ◌++◌, arith,
  length, All-append, if◌then◌else◌,
}
use vector_sync.Base.Int.{ℤ}
use vector_sync.Base.Text.{Bytes}
use vector_sync.Base.Exec.{Result, ok, err}
use vector_sync.Services.Interfaces.{Float32}
use vector_sync.Db.Rows.{then_result}
use vector_sync.Db.Statements.{
  sql, placeholder, similarity_expression, Statement, bind, Arg, text_arg, id_arg, json_arg,
  float_arg, count_arg, filter_loop, distance_expression, search_start, search_end,
  search_statement,
}
use vector_sync.Db.Statements.Binding.{
  IsBound, IsBinding, IsSearch, bind-IsSearch, distance_expression-IsBound,
  similarity_expression-IsBound, ok-injective, filter_loop-IsSearch, filter_loop-args,
}

search_start-IsSearch :
    (F J : Type 0) (vector_text : Bytes) (id : String) (include_vector : Bool) (metric : String)
    → IsSearch (search_start {F = F} {J = J} vector_text id include_vector metric)
unfolding search_start
search_start-IsSearch F J vector_text id include_vector metric = (
  (
    refl,
    All-append (IsBound 2)
        (sql "SELECT id, collection_id, "
          ∷ sql (if include_vector then "vector, " else "")
          ∷ sql "metadata, content, created_at, updated_at, "
          ∷ similarity_expression metric (distance_expression metric 1))
        (sql " AS similarity FROM documents WHERE collection_id = " ∷ placeholder 2 ∷ [])
        (
          tt,
          (
            tt,
            (
              tt,
              similarity_expression-IsBound 2 metric (distance_expression metric 1)
                  (distance_expression-IsBound 2 1 metric (omega arith) (omega arith)),
            ),
          ),
        )
        (tt, ((omega arith, omega arith), tt)),
  ),
  omega arith,
)

module _ {F J : Type 0} where
  search_end-IsSearch :
      (with_threshold : Bool) (min_threshold : F) (top_k : ℤ) (metric : String)
      (s : Statement (Arg F J))
      → IsSearch s
      → IsSearch (search_end with_threshold min_threshold top_k metric s)
  unfolding search_end
  search_end-IsSearch with_threshold min_threshold top_k metric s h = ordered with_threshold
    where
      limited :
          (t : Statement (Arg F J))
          → IsSearch t
          → IsSearch (
              bind
                (sql " ORDER BY " ∷ (distance_expression metric 1 ++ sql " LIMIT " ∷ []))
                ""
                (count_arg top_k)
                t)
      limited t (b, n) =
          bind-IsSearch _ "" (count_arg top_k) t (b, n)
            (
              tt,
              All-append (IsBound (length t.args)) (distance_expression metric 1)
                  (sql " LIMIT " ∷ [])
                  (distance_expression-IsBound (length t.args) 1 metric (omega arith)
                    (omega (arith, n)))
                  (tt, tt),
            )

      above : IsSearch (
          bind
            (sql " AND ("
              ∷ (similarity_expression metric (distance_expression metric 1) ++ sql ") >= " ∷ []))
            ""
            (float_arg min_threshold)
            s)
      above = bind-IsSearch _ "" (float_arg min_threshold) s h (
        tt,
        All-append (IsBound (length s.args))
            (similarity_expression metric (distance_expression metric 1)) (sql ") >= " ∷ [])
            (similarity_expression-IsBound (length s.args) metric (distance_expression metric 1) (
              distance_expression-IsBound (length s.args) 1 metric (omega arith)
                (omega (arith, h.1))))
            (tt, tt),
      )

      ordered : (b : Bool) → IsSearch (search_end b min_threshold top_k metric s)
      ordered true = limited _ above
      ordered false = limited s h

  -- In the statement of `Search`, whatever the filter, the threshold and the metric, every placeholder names one of
  -- the values that are bound, and the next index is one behind the last of them.
  pub search_statement-IsBinding :
      (float : Float32 F) (vector_text : Bytes) (id : String) (top_k : ℤ)
      (filters : List (Result J)) (min_threshold : F) (include_vector : Bool) (metric : String)
      (s : Statement (Arg F J))
      → search_statement float vector_text id top_k filters min_threshold include_vector metric
        ≡ ok s
      → IsBinding s
  unfolding search_statement
  search_statement-IsBinding float vector_text id top_k filters min_threshold include_vector metric
        s e =
      ended (filter_loop filters (search_start vector_text id include_vector metric))
        (λ t.
          filter_loop-IsSearch filters _ t
            (search_start-IsSearch F J vector_text id include_vector metric))
        e
    where
      ended :
          (q : Result (Statement (Arg F J)))
          → ((t : Statement (Arg F J)) → q ≡ ok t → IsSearch t)
          → then_result q (λ t.
            ok (search_end (float.lt float.zero min_threshold) min_threshold top_k metric t))
            ≡ ok s
          → IsBinding s
      ended (err x) h e = ground arith
      ended (ok t) h e =
          subst IsBinding (ok-injective _ s e)
            (search_end-IsSearch _ min_threshold top_k metric t (h t refl)).0

  -- What `Search` binds behind the filter: the threshold only if it is positive.
  abbrev pub search_last : Bool → F → ℤ → List (Arg F J)
  search_last true min_threshold top_k = float_arg min_threshold ∷ count_arg top_k ∷ []
  search_last false min_threshold top_k = count_arg top_k ∷ []

  search_end-args :
      (with_threshold : Bool) (min_threshold : F) (top_k : ℤ) (metric : String)
      (s : Statement (Arg F J))
      → (search_end with_threshold min_threshold top_k metric s).args
        ≡ s.args ++ search_last with_threshold min_threshold top_k
  unfolding search_end bind
  search_end-args true min_threshold top_k metric s = simp (append_assoc)
  search_end-args false min_threshold top_k metric s = refl

  -- The statement of `Search` is built only when every entry of the filter marshals, and binds the text of the
  -- vector, the collection, the filter's entries, the threshold if it is positive, and the limit.
  pub search_statement-args :
      (float : Float32 F) (vector_text : Bytes) (id : String) (top_k : ℤ)
      (filters : List (Result J)) (min_threshold : F) (include_vector : Bool) (metric : String)
      (s : Statement (Arg F J))
      → search_statement float vector_text id top_k filters min_threshold include_vector metric
        ≡ ok s
      → (js : List J) × (filters ≡ map ok js)
        × (s.args
            ≡ (text_arg vector_text ∷ id_arg id ∷ [])
              ++ (map json_arg js
                  ++ search_last (float.lt float.zero min_threshold) min_threshold top_k))
  unfolding search_statement search_start
  search_statement-args float vector_text id top_k filters min_threshold include_vector metric s e =
      built (filter_loop filters (search_start vector_text id include_vector metric)) refl e
    where
      above : Bool
      above = float.lt float.zero min_threshold

      built :
          (q : Result (Statement (Arg F J)))
          → filter_loop filters (search_start vector_text id include_vector metric) ≡ q
          → then_result q (λ t. ok (search_end above min_threshold top_k metric t)) ≡ ok s
          → (js : List J) × (filters ≡ map ok js)
            × (s.args
                ≡ (text_arg vector_text ∷ id_arg id ∷ [])
                  ++ (map json_arg js ++ search_last above min_threshold top_k))
      built (err x) h e = ground arith
      built (ok t) h e =
          let (js, f, a) = filter_loop-args filters _ t h in
          (
            js,
            f,
            ap (λ r. r.args)
                  (sym (ok-injective (search_end above min_threshold top_k metric t) s e))
                ∙ search_end-args above min_threshold top_k metric t
                ∙ ap (λ r. r ++ search_last above min_threshold top_k) a
                ∙ append_assoc (text_arg vector_text ∷ id_arg id ∷ []) (map json_arg js)
                    (search_last above min_threshold top_k),
          )
