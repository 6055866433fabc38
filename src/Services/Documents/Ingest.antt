-- ===== src/Services/Documents/Ingest.antt =====
-- internal/services/document_service.go: `IngestDocument`. Where it would index `embeddings[i]` out of
-- range, which is a panic, the model gives `none`. What it writes to the
-- collectors of internal/metrics is in Metrics.Ingestion.
pub mod Total
use text.Mathlib.Text.{◌==◌}
use vector_sync.Base.{
  ℕ, String, Bool, true, false, not, List, [], ◌∷◌, map, Option, none, some, if◌then◌else◌, length,
  is_empty,
}
use vector_sync.Base.Int.{ℤ, pos, eqb_ℤ}
use vector_sync.Base.Text.{Bytes}
use vector_sync.Base.Exec.{
  Error, message, lit, num, new_error, Result, ok, err, wrap_result, Exec, pure, lift, wrap,
  refuse_if, ◌>>=◌, ◌>>◌,
}
use vector_sync.Models.{Metadata, Document}
use vector_sync.Chunker.{get_chunker, chunk}
use vector_sync.Embedding.{get_client}
use vector_sync.Embedding.Interface.{Wire, Client}
use vector_sync.Services.Interfaces.{CollectionRepository, DocumentRepository, Service, on_repo}
use vector_sync.Services.Collections.{or_empty}
use vector_sync.Services.Documents.{get_collection_info, get_collection_embedding_info}
use vector_sync.Services.Documents.Batch.{batch_insert}

-- `ChunkingConfig`
pub record ChunkingConfig : Type 0 where
  pub strategy : String
  pub chunk_size : ℤ
  pub chunk_overlap : ℤ

-- The document of a chunk; its other fields keep their zero values.
abbrev pub chunk_document : {F V : Type 0} → String → Metadata V → Bytes → List F → Document F V
chunk_document id metadata content vector = record {
  id = "";
  collection_id = id;
  vector = vector;
  metadata = metadata;
  content = content;
  created_at = 0;
  updated_at = 0;
}

-- The loop that pairs each chunk with `embeddings[i]`: none where the index is out of range.
unfoldable pub chunk_documents :
    {F V : Type 0} → String → Metadata V → List Bytes → List (List F) → Option (List (Document F V))
chunk_documents id metadata [] es = some []
chunk_documents id metadata (c ∷ cs) [] = none
chunk_documents id metadata (c ∷ cs) (e ∷ es) = elim (chunk_documents id metadata cs es) [
  | none ↦ none
  | some ds ↦ some (chunk_document id metadata c e ∷ ds)
]

-- `if len(embeddings) > 0 && len(embeddings[0]) != dimension { … }`
unfoldable pub check_first : {F : Type 0} → ℤ → List (List F) → Result (Unit {0})
check_first dimension [] = ok tt
check_first dimension (e ∷ es) =
    if not (eqb_ℤ (pos (length e)) dimension)
    then err (
        message (
          lit "generated embedding dimension "
          ∷ num (pos (length e))
          ∷ lit " does not match collection expectation "
          ∷ num dimension
          ∷ []))
    else ok tt

-- `if err != nil { return 0, nil, err }`
abbrev pub stop_or :
    {A B S : Type 0} → Result A × S → (A → S → Option (Result B) × S) → Option (Result B) × S
stop_or (ok a, s) f = f a s
stop_or (err e, s) f = (some (err e), s)

module _ {F W : Type 0} (wire : Wire F W) where
  -- The steps up to the embeddings of the chunks.
  unfoldable pub embed_chunks : String → String → List Bytes → Exec (Service W) (List (List F))
  embed_chunks provider model chunks = do
    client ←
        lift (wrap_result "failed to initialize embedding client" (get_client wire provider model))
    wrap "failed to generate embeddings" (on_repo (client.generate_embeddings chunks))

module _ {V W : Type 0} (collections : CollectionRepository V W) where
  -- `getCollectionEmbeddingInfo` and the checks before it.
  unfoldable pub ingest_provider : String → Bytes → Exec (Service W) (String × String)
  ingest_provider id content = do
    refuse_if (id == "") (new_error "collection_id is required")
    refuse_if (is_empty content) (new_error "content is required")
    chosen ← get_collection_embedding_info collections id
    refuse_if (chosen.0 == "") (
        new_error
          "collection is not configured for automatic embedding generation (no embedding_provider set)")
    pure chosen

module _ {F V W : Type 0} (documents : DocumentRepository F V W)
    (collections : CollectionRepository V W) where
  -- The last step, behind the documents.
  unfoldable pub insert_chunks :
      String
      → Option (List (Document F V))
      → Service W
      → Option (Result (ℕ × List String)) × Service W
  insert_chunks id none s = (none, s)
  insert_chunks id (some ds) s =
      let (r, s') =
        (wrap "failed to batch insert chunks" (batch_insert documents collections id ds) >>= λ done.
        pure (done.0, map (λ d. d.id) (done.1)))
          s in
      (some r, s')

module _ {F V W : Type 0} (wire : Wire F W) (documents : DocumentRepository F V W)
    (collections : CollectionRepository V W) where
  -- The embeddings of the chunks and the documents made of them.
  unfoldable pub ingest_chunks :
      String
      → Metadata V
      → String × String
      → List Bytes
      → Service W
      → Option (Result (ℕ × List String)) × Service W
  unfolding insert_chunks embed_chunks
  ingest_chunks id metadata chosen [] s = (some (ok (0, [])), s)
  ingest_chunks id metadata chosen (c ∷ cs) s =
      stop_or (embed_chunks wire (chosen.0) (chosen.1) (c ∷ cs) s) λ es s₁.
        stop_or ((get_collection_info collections id >>= λ info. lift (check_first (info.0) es)) s₁)
          λ _. insert_chunks documents collections id (chunk_documents id metadata (c ∷ cs) es)

  -- `IngestDocument`
  unfoldable pub ingest_document :
      String
      → Bytes
      → Metadata V
      → ChunkingConfig
      → Service W
      → Option (Result (ℕ × List String)) × Service W
  unfolding ingest_chunks ingest_provider
  ingest_document id content metadata config s =
      stop_or (ingest_provider collections id content s) λ chosen.
        ingest_chunks id (or_empty metadata) chosen
          (chunk (get_chunker config.strategy) content config.chunk_size config.chunk_overlap)
