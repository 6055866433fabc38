-- ===== src/Services/Documents/Ingest/Total.antt =====
-- How `IngestDocument` puts chunks and embeddings together.
use vector_sync.Base.{
  ℕ, String, ◌≡◌, refl, ap, List, [], ◌∷◌, Option, none, some, map, arith, length,
}
use vector_sync.Base.Text.{Bytes}
use vector_sync.Base.Exec.{Result, ok, err, wrap_result, continue}
use vector_sync.Models.{Metadata, Document}
use vector_sync.Embedding.{get_client}
use vector_sync.Embedding.Interface.{Wire, Client, IsAligned}
use vector_sync.Embedding.Aligned.{get_client-IsAligned}
use vector_sync.Services.Interfaces.{CollectionRepository, DocumentRepository, Service, on_repo}
use vector_sync.Services.Documents.Ingest.{
  ChunkingConfig, chunk_document, chunk_documents, stop_or, embed_chunks, ingest_provider,
  insert_chunks, ingest_chunks, ingest_document,
}

-- The documents are the chunks and the embeddings, in order.
abbrev Pairs : {F V : Type 0} → List Bytes → List (List F) → Option (List (Document F V)) → Type 0
Pairs cs es none = ⊥
Pairs cs es (some ds) = (map (λ d. d.content) ds ≡ cs) × (map (λ d. d.vector) ds ≡ es)

chunk_documents-Pairs :
    {F V : Type 0} (id : String) (metadata : Metadata V) (cs : List Bytes) (es : List (List F))
    → length es ≡ length cs
    → Pairs cs es (chunk_documents id metadata cs es)
unfolding chunk_documents
chunk_documents-Pairs id metadata [] [] h = (refl, refl)
chunk_documents-Pairs id metadata [] (e ∷ es) h = ground arith
chunk_documents-Pairs {F} {V} id metadata (c ∷ cs) [] h = ground arith
chunk_documents-Pairs {F} {V} id metadata (c ∷ cs) (e ∷ es) h =
    one _ (chunk_documents-Pairs id metadata cs es (omega arith))
  where
    one :
        (o : Option (List (Document F V)))
        → Pairs cs es o
        → Pairs
            (c ∷ cs)
            (e ∷ es)
            (elim o [ none ↦ none | some ds ↦ some (chunk_document id metadata c e ∷ ds) ])
    one none h = h
    one (some ds) (p, q) = (ap (λ x. c ∷ x) p, ap (λ x. e ∷ x) q)

-- A success has one embedding for each chunk.
abbrev Fills : {F S : Type 0} → List Bytes → Result (List (List F)) × S → Type 0
Fills cs (ok es, s) = length es ≡ length cs
Fills cs (err e, s) = Unit {0}

Fills-ok :
    {F S : Type 0} (cs : List Bytes) (r : Result (List (List F)) × S) (es : List (List F)) (t : S)
    → Fills cs r
    → r ≡ (ok es, t)
    → length es ≡ length cs
Fills-ok cs (ok xs, s) es t h e = ground arith
Fills-ok cs (err x, s) es t h e = ground arith

-- The call returns, with a value or an error.
abbrev Returns : {B S : Type 0} → Option (Result B) × S → Type 0
Returns (none, s) = ⊥
Returns (some r, s) = Unit {0}

stop_or-Returns :
    {A B S : Type 0} (r : Result A × S) (f : A → S → Option (Result B) × S)
    → ((a : A) (s : S) → r ≡ (ok a, s) → Returns (f a s))
    → Returns (stop_or r f)
stop_or-Returns (ok a, s) f h = h a s refl
stop_or-Returns (err e, s) f h = tt

module _ {F W : Type 0} (wire : Wire F W) where
  embed_chunks-Fills :
      (provider model : String) (cs : List Bytes) (s : Service W)
      → Fills cs (embed_chunks wire provider model cs s)
  unfolding embed_chunks
  embed_chunks-Fills provider model cs s =
      by_client (get_client wire provider model) (get_client-IsAligned wire provider model)
    where
      answer :
          (r : Result (List (List F)) × W)
          → ((w' : W) (es : List (List F)) → r ≡ (ok es, w') → length es ≡ length cs)
          → Fills cs (wrap_result "failed to generate embeddings" (r.0), record s { world = r.1 })
      answer (ok es, w) h = h w es refl
      answer (err e, w) h = tt

      by_client :
          (q : Result (Client F W))
          → ((client : Client F W) → q ≡ ok client → IsAligned client)
          → Fills cs (
              continue {S = Service W}
                (wrap_result "failed to initialize embedding client" q, s)
                (λ client s.
                  let (r, s') = on_repo (client.generate_embeddings cs) s in
                  (wrap_result "failed to generate embeddings" r, s')))
      by_client (ok client) h =
          answer (client.generate_embeddings cs s.world) (h client refl cs s.world)
      by_client (err e) h = tt

module _ {F V W : Type 0} (wire : Wire F W) (documents : DocumentRepository F V W)
    (collections : CollectionRepository V W) where
  insert_chunks-Returns :
      (id : String) (cs : List Bytes) (es : List (List F)) (o : Option (List (Document F V)))
      (s : Service W)
      → Pairs cs es o
      → Returns (insert_chunks documents collections id o s)
  unfolding insert_chunks
  insert_chunks-Returns id cs es none s h = absurd h
  insert_chunks-Returns id cs es (some ds) s h = tt

  ingest_chunks-Returns :
      (id : String) (metadata : Metadata V) (chosen : String × String) (cs : List Bytes)
      (s : Service W)
      → Returns (ingest_chunks wire documents collections id metadata chosen cs s)
  unfolding ingest_chunks
  ingest_chunks-Returns id metadata chosen [] s = tt
  ingest_chunks-Returns id metadata chosen (c ∷ cs) s =
      stop_or-Returns (embed_chunks wire (chosen.0) (chosen.1) (c ∷ cs) s) _ λ es t e.
        stop_or-Returns _ _ λ _ u _.
          insert_chunks-Returns id (c ∷ cs) es (chunk_documents id metadata (c ∷ cs) es) u (
            chunk_documents-Pairs id metadata (c ∷ cs) es (
              Fills-ok (c ∷ cs) (embed_chunks wire (chosen.0) (chosen.1) (c ∷ cs) s) es t
                (embed_chunks-Fills wire (chosen.0) (chosen.1) (c ∷ cs) s) e))

  ingest_document-Returns :
      (id : String) (content : Bytes) (metadata : Metadata V) (config : ChunkingConfig)
      (s : Service W)
      → Returns (ingest_document wire documents collections id content metadata config s)
  unfolding ingest_document
  ingest_document-Returns id content metadata config s =
      stop_or-Returns (ingest_provider collections id content s) _
        λ chosen t e. ingest_chunks-Returns id _ chosen _ t

  returned :
      {B S : Type 0} (p : Option (Result B) × S)
      → Returns p
      → (r : Result B) × (t : S) × (p ≡ (some r, t))
  returned (none, s) h = absurd h
  returned (some r, s) h = (r, s, refl)

  -- Whatever the content, the configuration, the providers' answers and the database, `IngestDocument`
  -- never indexes `embeddings[i]` out of range: it returns a value or an error.
  pub ingest_document-returns :
      (id : String) (content : Bytes) (metadata : Metadata V) (config : ChunkingConfig)
      (s : Service W)
      → (r : Result (ℕ × List String)) × (t : Service W) × (ingest_document wire documents
            collections id content metadata config s
          ≡ (some r, t))
  ingest_document-returns id content metadata config s =
      returned _ (ingest_document-Returns id content metadata config s)

module _ {F W : Type 0} (wire : Wire F W) where
  -- Once the chunks are embedded, the documents to insert are as many as the chunks, their contents are the
  -- chunks and their vectors the embeddings, in order.
  pub embed_chunks-pairs :
      {V : Type 0} (id provider model : String) (metadata : Metadata V) (cs : List Bytes)
      (es : List (List F)) (s t : Service W)
      → embed_chunks wire provider model cs s ≡ (ok es, t)
      → (ds : List (Document F V)) × (chunk_documents id metadata cs es ≡ some ds)
        × (map (λ d. d.content) ds ≡ cs)
        × (map (λ d. d.vector) ds ≡ es)
  embed_chunks-pairs {V} id provider model metadata cs es s t h =
      paired (chunk_documents id metadata cs es) (
        chunk_documents-Pairs id metadata cs es (
          Fills-ok cs (embed_chunks wire provider model cs s) es t
            (embed_chunks-Fills wire provider model cs s) h))
    where
      paired :
          (o : Option (List (Document F V)))
          → Pairs cs es o
          → (ds : List (Document F V)) × (o ≡ some ds)
            × (map (λ d. d.content) ds ≡ cs)
            × (map (λ d. d.vector) ds ≡ es)
      paired none h = absurd h
      paired (some ds) (p, q) = (ds, refl, p, q)
