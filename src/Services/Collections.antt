-- ===== src/Services/Collections.antt =====
-- internal/services/collection_service.go: checks of the input in front of the repository.
pub mod Checks
use text.Mathlib.Text.{◌==◌}
use vector_sync.Base.{
  ℕ, String, Bool, true, false, not, ◌&&◌, ◌||◌, List, [], ◌∷◌, ◌++◌, none, some, if◌then◌else◌,
}
use vector_sync.Base.Int.{ℤ, pos, ltb_ℤ}
use vector_sync.Base.Text.{Bytes, codes}
use vector_sync.Base.Exec.{
  Error, no_rows, foreign, message, wrapped, lit, str, quoted, num, Part, new_error, Result, ok,
  err, Exec, refuse_if, ◌>>=◌, ◌>>◌,
}
use vector_sync.Strings.{contains}
use vector_sync.Models.{Metadata, Collection}
use vector_sync.Services.Interfaces.{CollectionRepository}

-- `if metadata == nil { metadata = make(map[string]any) }`
abbrev pub or_empty : {V : Type 0} → Metadata V → Metadata V
or_empty none = some []
or_empty (some m) = some m

-- `if distanceMetric == "" { distanceMetric = "cosine" }`
unfoldable pub default_metric : String → String
default_metric metric = if metric == "" then "cosine" else metric

unfoldable pub is_metric : String → Bool
is_metric metric = metric == "cosine" || (metric == "euclidean" || metric == "inner_product")

unfoldable pub is_provider : String → Bool
is_provider provider = provider == "openai" || (provider == "ollama" || provider == "cohere")

-- The text of an error, as `err.Error()` gives it. No repository returns a `message`: of one the
-- numbers and the quotation marks are left out.
unfoldable pub part_text : Part → Bytes
part_text (lit s) = codes s
part_text (str s) = codes s
part_text (quoted s) = codes s
part_text (num n) = []

unfoldable pub parts_text : List Part → Bytes
unfolding part_text
parts_text [] = []
parts_text (p ∷ ps) = part_text p ++ parts_text ps

unfoldable pub error_text : Error → Bytes
unfolding parts_text
error_text no_rows = codes "sql: no rows in result set"
error_text (foreign text) = text
error_text (message parts) = parts_text parts
error_text (wrapped parts e) = parts_text parts ++ (codes ": " ++ error_text e)

-- `strings.Contains(err.Error(), …)`: a unique violation of PostgreSQL.
unfoldable pub is_duplicate : Error → Bool
unfolding error_text contains
is_duplicate e =
    let text = error_text e in
    contains text (codes "duplicate key") || contains text (codes "unique constraint")

-- What `CreateCollection` refuses before it calls the repository.
unfoldable pub check_embedding : {W : Type 0} → String → String → Exec W (Unit {0})
check_embedding provider model =
    if not (provider == "")
    then (do
      refuse_if (not (is_provider provider))
          (message (lit "unsupported embedding provider " ∷ quoted provider ∷ []))
      refuse_if (model == "")
          (new_error "embedding_model is required when embedding_provider is set"))
    else refuse_if (not (model == ""))
        (new_error "embedding_provider is required when embedding_model is set")

-- The conversion of the error of `repo.Create`.
abbrev pub rename_duplicate : {A W : Type 0} → Result A × W → Result A × W
rename_duplicate (ok a, w) = (ok a, w)
rename_duplicate (err e, w) =
    (err (if is_duplicate e then new_error "collection already exists" else e), w)

-- Pagination defaults
abbrev pub default_limit : ℤ
default_limit = pos 20

abbrev pub max_limit : ℤ
max_limit = pos 100

-- `if limit <= 0 { … }; if limit > MaxLimit { … }`
unfoldable pub clamp_limit : ℤ → ℤ
clamp_limit limit =
    let l = if ltb_ℤ (pos 0) limit then limit else default_limit in
    if ltb_ℤ max_limit l then max_limit else l

-- `if offset < 0 { offset = 0 }`
unfoldable pub clamp_offset : ℤ → ℤ
clamp_offset offset = if ltb_ℤ offset (pos 0) then pos 0 else offset

module _ {V W : Type 0} (repo : CollectionRepository V W) where
  -- `CreateCollection`
  unfoldable pub create_collection :
      String → ℤ → Metadata V → String → String → String → Exec W (Collection V)
  create_collection name dimension schema metric provider model = do
    refuse_if (name == "") (new_error "name is required")
    refuse_if (not (ltb_ℤ (pos 0) dimension)) (new_error "vector dimension must be greater than 0")
    let metric' = default_metric metric
    refuse_if (not (is_metric metric')) (
        message (
          lit "invalid distance_metric "
          ∷ quoted metric'
          ∷ lit ": must be cosine, euclidean, or inner_product"
          ∷ []))
    check_embedding provider model
    λ w. rename_duplicate (repo.create name dimension (or_empty schema) metric' provider model w)

  -- `ListCollections`
  unfoldable pub list_collections : ℤ → ℤ → Exec W (List (Collection V))
  list_collections limit offset = repo.list (clamp_limit limit) (clamp_offset offset)

  -- `ListCollection`
  unfoldable pub list_collection : String → Exec W (Collection V)
  list_collection id = do
    refuse_if (id == "") (new_error "collectionId cannot be empty")
    repo.list_by_id id

  -- `DeleteCollection`
  unfoldable pub delete_collection : String → Exec W ℤ
  delete_collection id = do
    refuse_if (id == "") (new_error "collectionId cannot be empty")
    repo.delete_by_id id
