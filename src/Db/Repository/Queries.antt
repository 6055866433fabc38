-- ===== src/Db/Repository/Queries.antt =====
-- The statement that `Search` runs, and that of `HybridSearch`.
use vector_sync.Base.{String, ◌≡◌, refl, ◌⊎◌, inl, inr, Bool, List, [], ◌∷◌, ◌++◌, map}
use vector_sync.Base.Int.{ℤ}
use vector_sync.Base.Text.{Bytes}
use vector_sync.Base.Exec.{Result, ok, err, continue}
use vector_sync.Models.{Metadata}
use vector_sync.Services.Interfaces.{Float32}
use vector_sync.Services.Collections.Checks.{Refused}
use vector_sync.Db.Vectors.{vector_to_string}
use vector_sync.Db.Statements.{Statement, Arg, text_arg, id_arg, json_arg, float_arg, count_arg}
use vector_sync.Db.Statements.Binding.{IsBinding}
use vector_sync.Db.Statements.Placeholders.{
  search_last, search_statement-IsBinding, search_statement-args,
}
use vector_sync.Db.Statements.Combined.Placeholders.{hybrid_first, hybrid_statement-binds}
use vector_sync.Db.Repository.{Driver, Codec, filters, run_search, search, hybrid_search}

module _ {F V J W : Type 0} (float : Float32 F) (codec : Codec F V J) (db : Driver F J W) where
  -- A statement for these arguments whose placeholders name its values, one for one.
  abbrev pub IsQuery : String → List F → ℤ → Metadata V → F → Statement (Arg F J) → Type 0
  IsQuery id query top_k filter min_threshold statement =
      IsBinding statement
      × (js : List J) × (filters codec filter ≡ map ok js)
      × (statement.args
          ≡ (text_arg (vector_to_string codec.format query) ∷ id_arg id ∷ [])
            ++ (map json_arg js
                ++ search_last (float.lt float.zero min_threshold) min_threshold top_k))

  -- The same of the hybrid search, whose text is bound first if there is one.
  abbrev pub IsHybridQuery :
      String → Bytes → List F → ℤ → Metadata V → F → F → Statement (Arg F J) → Type 0
  IsHybridQuery id text query top_k filter vector_weight text_weight statement =
      IsBinding statement
      × (js : List J) × (filters codec filter ≡ map ok js)
      × (statement.args
          ≡ hybrid_first text id (vector_to_string codec.format query)
            ++ (map json_arg js
                ++ (float_arg text_weight ∷ float_arg vector_weight ∷ count_arg top_k ∷ [])))

  -- A statement that is built is run, once; where it is not, nothing is.
  built :
      (P : Statement (Arg F J) → Type 0) (include_vector : Bool) (q : Result (Statement (Arg F J)))
      (w : W)
      → ((statement : Statement (Arg F J)) → q ≡ ok statement → P statement)
      → let r = continue (q, w) (run_search float codec db include_vector) in
        Refused r w
        ⊎ ((statement : Statement (Arg F J)) × P statement
            × (r ≡ run_search float codec db include_vector statement w))
  built P include_vector (err e) w h = inl refl
  built P include_vector (ok statement) w h = inr (statement, h statement refl, refl)

  -- `Search` fails before a query, where the filter does not marshal, or runs one query.
  pub search-IsQuery :
      (id : String) (query : List F) (top_k : ℤ) (filter : Metadata V) (min_threshold : F)
      (include_vector : Bool) (metric : String) (w : W)
      → Refused
          (search float codec db id query top_k filter min_threshold include_vector metric w)
          w
        ⊎ ((statement : Statement (Arg F J)) × IsQuery id query top_k filter min_threshold statement
            × (search float codec db id query top_k filter min_threshold include_vector metric w
                ≡ run_search float codec db include_vector statement w))
  unfolding search
  search-IsQuery id query top_k filter min_threshold include_vector metric w =
      built (IsQuery id query top_k filter min_threshold) include_vector _ w (λ statement e.
        let (js, f, a) =
          search_statement-args float (vector_to_string codec.format query) id top_k
            (filters codec filter) min_threshold include_vector metric statement e in
        (
          search_statement-IsBinding float (vector_to_string codec.format query) id top_k
              (filters codec filter) min_threshold include_vector metric statement e,
          js,
          f,
          a,
        ))

  -- `HybridSearch` likewise.
  pub hybrid_search-IsHybridQuery :
      (id : String) (text : Bytes) (query : List F) (top_k : ℤ) (filter : Metadata V)
      (vector_weight text_weight : F) (include_vector : Bool) (metric : String) (w : W)
      → let r =
          hybrid_search float codec db id text query top_k filter vector_weight text_weight
            include_vector metric w in
        Refused r w
        ⊎ ((statement : Statement (Arg F J)) × IsHybridQuery id text query top_k filter
              vector_weight text_weight statement
            × (r ≡ run_search float codec db include_vector statement w))
  unfolding hybrid_search
  hybrid_search-IsHybridQuery id text query top_k filter vector_weight text_weight include_vector
        metric w =
      built (IsHybridQuery id text query top_k filter vector_weight text_weight) include_vector _ w
        (hybrid_statement-binds text id (vector_to_string codec.format query) top_k
          (filters codec filter) vector_weight text_weight include_vector metric)
