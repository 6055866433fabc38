-- ===== src/Services/Documents.antt =====
-- internal/services/document_service.go: what its methods share, and those on one document. The child
-- Listing has the methods that read many documents, Batch those on batches and Ingest the ingestion;
-- Interleaved takes the lookups of the collection apart into their calls.
pub mod Lookups
pub mod Coherent
pub mod Single
pub mod Listing
pub mod Pages
pub mod Hybrid
pub mod Batch
pub mod Ingest
pub mod Interleaved
use text.Mathlib.Text.{◌==◌}
use vector_sync.Base.{
  ℕ, ◌+◌, String, Bool, true, false, not, List, [], ◌∷◌, if◌then◌else◌, length, is_empty,
}
use vector_sync.Base.Int.{ℤ, pos, eqb_ℤ, to_int32}
use vector_sync.Base.Text.{Bytes}
use vector_sync.Base.Exec.{
  Error, no_rows, foreign, message, wrapped, lit, str, num, new_error, wrap_error, Result, ok, err,
  Exec, pure, lift, wrap, refuse_if, continue, ◌>>=◌, ◌>>◌,
}
use vector_sync.Models.{Metadata, Collection, Document}
use vector_sync.Cache.{CollectionInfo}
use vector_sync.Services.Interfaces.{
  CollectionRepository, DocumentRepository, UpsertResult, Float32, Service, on_repo, read_cache,
  fill_cache,
}
use vector_sync.Services.Collections.{or_empty}

-- `if err == sql.ErrNoRows { … }; if err != nil { … }`
unfoldable pub missing_error : String → String → String → Error → Error
missing_error field id text no_rows = message (lit field ∷ str id ∷ lit " not found" ∷ [])
missing_error field id text (foreign t) = wrap_error text (foreign t)
missing_error field id text (message parts) = wrap_error text (message parts)
missing_error field id text (wrapped parts e) = wrap_error text (wrapped parts e)

abbrev pub or_missing : {A S : Type 0} → String → String → String → Result A × S → Result A × S
or_missing field id text (ok a, s) = (ok a, s)
or_missing field id text (err e, s) = (err (missing_error field id text e), s)

-- What is cached of a collection; its dimension is cut to an int32.
abbrev pub collection_info : {V : Type 0} → Collection V → CollectionInfo
collection_info c = record {
  dimension = to_int32 c.vector_dimension;
  distance_metric = c.distance_metric;
  embedding_provider = c.embedding_provider;
  embedding_model = c.embedding_model;
}

module _ {V W : Type 0} (collections : CollectionRepository V W) where
  -- The cache miss: the collection is read from the database and cached.
  unfoldable pub fetch_collection : String → Exec (Service W) (Collection V)
  fetch_collection id s =
      continue
        (or_missing "collection_id " id "failed to fetch collection"
          (on_repo (collections.list_by_id id) s))
        λ c. fill_cache id (collection_info c) >> pure c

  abbrev pub info_or_fetch : String → CollectionInfo × Bool → Exec (Service W) (ℤ × String)
  info_or_fetch id (info, true) = pure (info.dimension, info.distance_metric)
  info_or_fetch id (info, false) = do
    c ← fetch_collection id
    pure (c.vector_dimension, c.distance_metric)

  -- `getCollectionInfo`
  unfoldable pub get_collection_info : String → Exec (Service W) (ℤ × String)
  get_collection_info id = read_cache id >>= info_or_fetch id

  abbrev pub embedding_or_fetch :
      String → CollectionInfo × Bool → Exec (Service W) (String × String)
  embedding_or_fetch id (info, true) = pure (info.embedding_provider, info.embedding_model)
  embedding_or_fetch id (info, false) = do
    c ← fetch_collection id
    pure (c.embedding_provider, c.embedding_model)

  -- `getCollectionEmbeddingInfo`
  unfoldable pub get_collection_embedding_info : String → Exec (Service W) (String × String)
  get_collection_embedding_info id = read_cache id >>= embedding_or_fetch id

module _ {F : Type 0} (float : Float32 F) where
  -- The loop over the values of a vector, from the index `i`.
  unfoldable pub check_values : String → ℕ → List F → Result (Unit {0})
  check_values what i [] = ok tt
  check_values what i (x ∷ xs) =
      let rest = check_values what (i + 1) xs in
      if float.is_nan x
      then err (message (lit what ∷ lit " contains NaN at index " ∷ num (pos i) ∷ []))
      else if float.is_inf x
      then err (message (lit what ∷ lit " contains Infinity at index " ∷ num (pos i) ∷ []))
      else rest

-- `if len(vector) != dimension { … }`
unfoldable pub check_length : {F S : Type 0} → String → ℤ → List F → Exec S (Unit {0})
check_length what dimension vector = refuse_if (not (eqb_ℤ (pos (length vector)) dimension)) (
    message (
      lit what
      ∷ lit " dimension mismatch: collection expects "
      ∷ num dimension
      ∷ lit " dimensions, got "
      ∷ num (pos (length vector))
      ∷ []))

-- The dimension of the vector and then its values.
unfoldable pub check_vector : {F S : Type 0} → Float32 F → String → ℤ → List F → Exec S (Unit {0})
unfolding check_length
check_vector float what dimension vector = do
  check_length what dimension vector
  lift (check_values float what 0 vector)

module _ {F V W : Type 0} (float : Float32 F) (documents : DocumentRepository F V W)
    (collections : CollectionRepository V W) where
  -- `CreateDocument`
  unfoldable pub create_document :
      String → Bytes → List F → Metadata V → Exec (Service W) (Document F V)
  create_document id content vector metadata = do
    refuse_if (id == "") (new_error "collection_id is required")
    refuse_if (is_empty vector) (new_error "vector cannot be empty")
    info ← get_collection_info collections id
    check_vector float "vector" (info.0) vector
    wrap "failed to create document"
        (on_repo (documents.create id content vector (or_empty metadata)))

  -- `UpsertDocument`
  unfoldable pub upsert_document :
      String → String → Bytes → List F → Metadata V → Exec (Service W) (UpsertResult F V)
  upsert_document document_id id content vector metadata = do
    refuse_if (document_id == "") (new_error "document_id is required for upsert")
    refuse_if (id == "") (new_error "collection_id is required")
    refuse_if (is_empty vector) (new_error "vector cannot be empty")
    info ← get_collection_info collections id
    check_vector float "vector" (info.0) vector
    wrap "failed to upsert document"
        (on_repo (documents.upsert document_id id content vector (or_empty metadata)))

module _ {F V W : Type 0} (documents : DocumentRepository F V W) where
  -- `GetDocument`
  unfoldable pub get_document : String → Exec (Service W) (Document F V)
  get_document document_id = do
    refuse_if (document_id == "") (new_error "document_id is required")
    λ s.
        or_missing "document_id " document_id "failed to fetch document"
          (on_repo (documents.get_by_id document_id) s)

  -- `DeleteDocument`
  unfoldable pub delete_document : String → Exec (Service W) (Unit {0})
  delete_document document_id = do
    refuse_if (document_id == "") (new_error "document_id is required")
    λ s.
        or_missing "document_id " document_id "failed to delete document"
          (on_repo (documents.delete_by_id document_id) s)
