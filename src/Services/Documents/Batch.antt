-- ===== src/Services/Documents/Batch.antt =====
-- internal/services/document_service.go: `BatchInsert` and `BatchDelete`.
pub mod Dimensions
use text.Mathlib.Text.{◌==◌}
use vector_sync.Base.{
  ℕ, String, Bool, true, false, not, List, [], ◌∷◌, ltb, if◌then◌else◌, length, is_empty,
}
use vector_sync.Base.Int.{ℤ, pos, eqb_ℤ}
use vector_sync.Base.Exec.{
  Result, ok, err, message, lit, num, new_error, Exec, lift, refuse_if, ◌>>=◌, ◌>>◌,
}
use vector_sync.Models.{Document}
use vector_sync.Services.Interfaces.{CollectionRepository, DocumentRepository, Service, on_repo}
use vector_sync.Services.Documents.{get_collection_info}

-- Batch size
abbrev pub batch_size : ℕ
batch_size = 1000

-- The loop that compares the dimension of each vector with the collection's.
unfoldable pub check_dimensions : {F V : Type 0} → ℤ → List (Document F V) → Result (Unit {0})
check_dimensions dimension [] = ok tt
check_dimensions dimension (d ∷ ds) =
    let rest = check_dimensions dimension ds in
    if not (eqb_ℤ dimension (pos (length d.vector)))
    then err (
        message (
          lit "mismatch between vector dimensions of document and collection, expected "
          ∷ num dimension
          ∷ lit " got "
          ∷ num (pos (length d.vector))
          ∷ []))
    else rest

-- `if len(…) > batchSize { … }`
abbrev pub refuse_oversized : {S : Type 0} → ℕ → Exec S (Unit {0})
refuse_oversized n = refuse_if (ltb batch_size n) (
    message (
      lit "batch size exceeds limit, got:"
      ∷ num (pos n)
      ∷ lit ", allowed:"
      ∷ num (pos batch_size)
      ∷ []))

module _ {F V W : Type 0} (documents : DocumentRepository F V W)
    (collections : CollectionRepository V W) where
  -- `BatchInsert`
  unfoldable pub batch_insert :
      String → List (Document F V) → Exec (Service W) (ℕ × List (Document F V))
  batch_insert id docs = do
    refuse_if (id == "") (new_error "collection_id cannot be empty")
    refuse_if (is_empty docs)
        (new_error "documents cannot be empty, size must be greater than zero")
    refuse_oversized (length docs)
    info ← get_collection_info collections id
    lift (check_dimensions (info.0) docs)
    on_repo (documents.batch_insert id docs)

  -- `BatchDelete`
  unfoldable pub batch_delete : String → List String → Exec (Service W) (ℕ × List (Document F V))
  batch_delete id document_ids = do
    refuse_if (id == "") (new_error "collection_id cannot be empty")
    refuse_if (is_empty document_ids)
        (new_error "document's ids cannot be empty, size must be greater than zero")
    refuse_oversized (length document_ids)
    info ← get_collection_info collections id
    on_repo (documents.batch_delete id document_ids)
