-- ===== src/Services/Documents/Coherent/Ingestion.antt =====
-- The cache of the collections against the table, over the ingestion.
use vector_sync.Base.{String, List, [], ◌∷◌, Option, none, some}
use vector_sync.Base.Text.{Bytes}
use vector_sync.Base.Exec.{Result, ok, err, lift, ◌>>=◌}
use vector_sync.Base.Keeps.{Keeps, lift-Keeps, wrap-Keeps, then-Keeps, checked-Keeps}
use vector_sync.Models.{Metadata, Document}
use vector_sync.Embedding.Interface.{Wire}
use vector_sync.Services.Interfaces.{CollectionRepository, DocumentRepository, Float32, Service}
use vector_sync.Services.Documents.{get_collection_info}
use vector_sync.Services.Documents.Ingest.{
  ChunkingConfig, check_first, chunk_documents, stop_or, embed_chunks, ingest_provider,
  insert_chunks, ingest_chunks, ingest_document,
}
use vector_sync.Services.Documents.Coherent.{
  Table, IsCoherent, get_collection_embedding_info-IsCoherent,
}
use vector_sync.Services.Documents.Coherent.Requests.{
  LeavesCollections, insert_all-Keeps, looked_up-Keeps,
}
use vector_sync.Services.Documents.Coherent.Clients.{LeavesTables, embed_chunks-Keeps}

module _ {W : Type 0} (table : Table W) where
  -- Behind an error the run ends with the state that the error left.
  stop_or-IsCoherent :
      {A B : Type 0} (r : Result A × Service W) (f : A → Service W → Option (Result B) × Service W)
      → ((a : A) (s : Service W) → IsCoherent table s → IsCoherent table ((f a s).1))
      → IsCoherent table (r.1)
      → IsCoherent table ((stop_or r f).1)
  stop_or-IsCoherent (ok a, s) f k h = k a s h
  stop_or-IsCoherent (err e, s) f k h = h

module _ {F V W : Type 0} (float : Float32 F) (wire : Wire F W)
    (documents : DocumentRepository F V W) (collections : CollectionRepository V W)
    (table : Table W) (laws : LeavesCollections documents collections table)
    (remote : LeavesTables wire table) where
  ingest_provider-Keeps :
      (id : String) (content : Bytes)
      → Keeps (IsCoherent table) (ingest_provider collections id content)
  unfolding ingest_provider
  ingest_provider-Keeps id content =
      search
        (
          checked-Keeps,
          then-Keeps,
          lift-Keeps,
          get_collection_embedding_info-IsCoherent table collections laws.find_told laws.find_quiet,
        )
        depth 9

  insert_chunks-IsCoherent :
      (id : String) (docs : Option (List (Document F V))) (s : Service W)
      → IsCoherent table s
      → IsCoherent table ((insert_chunks documents collections id docs s).1)
  unfolding insert_chunks
  insert_chunks-IsCoherent id none s h = h
  insert_chunks-IsCoherent id (some docs) s h =
      (then-Keeps _ _
          (wrap-Keeps "failed to batch insert chunks" _
            (insert_all-Keeps float documents collections table laws id docs))
          (λ done. lift-Keeps _)).kept
        s h

  dimension-Keeps :
      (id : String) (es : List (List F))
      → Keeps
          (IsCoherent table)
          (get_collection_info collections id >>= λ info. lift (check_first (info.0) es))
  dimension-Keeps id es =
      looked_up-Keeps float documents collections table laws id _
        λ info. lift-Keeps (check_first (info.0) es)

  ingest_chunks-IsCoherent :
      (id : String) (metadata : Metadata V) (chosen : String × String) (chunks : List Bytes)
      (s : Service W)
      → IsCoherent table s
      → IsCoherent table ((ingest_chunks wire documents collections id metadata chosen chunks s).1)
  unfolding ingest_chunks
  ingest_chunks-IsCoherent id metadata chosen [] s h = h
  ingest_chunks-IsCoherent id metadata chosen (c ∷ cs) s h =
      stop_or-IsCoherent table (embed_chunks wire (chosen.0) (chosen.1) (c ∷ cs) s) _
        (λ es s₁ h₁.
          stop_or-IsCoherent table
            ((get_collection_info collections id >>= λ info. lift (check_first (info.0) es)) s₁) _
            (λ _ s₂ h₂. insert_chunks-IsCoherent id (chunk_documents id metadata (c ∷ cs) es) s₂ h₂)
            ((dimension-Keeps id es).kept s₁ h₁))
        ((embed_chunks-Keeps wire table remote (chosen.0) (chosen.1) (c ∷ cs)).kept s h)

  pub ingest-IsCoherent :
      (id : String) (content : Bytes) (metadata : Metadata V) (config : ChunkingConfig)
      (s : Service W)
      → IsCoherent table s
      → IsCoherent table
          ((ingest_document wire documents collections id content metadata config s).1)
  unfolding ingest_document
  ingest-IsCoherent id content metadata config s h =
      stop_or-IsCoherent table (ingest_provider collections id content s) _
        (λ chosen s₁ h₁. ingest_chunks-IsCoherent id _ chosen _ s₁ h₁)
        ((ingest_provider-Keeps id content).kept s h)
