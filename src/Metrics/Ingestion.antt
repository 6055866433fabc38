-- ===== src/Metrics/Ingestion.antt =====
-- internal/metrics/metrics.go, the collectors of ingestions and of index builds, and the lines of
-- internal/services/document_service.go and internal/db/collection_repo.go that write to them. The
-- clock is a parameter.
use text.Mathlib.Text.{◌==◌}
use text.Mathlib.TextEquality.{eq_iff}
use vector_sync.Base.{
  ℕ, ◌+◌, ◌-◌, String, ◌≡◌, refl, List, ◌∷◌, Option, none, some, arith, length, if◌then◌else◌, ◌&&◌,
}
use vector_sync.Base.Text.{Bytes}
use vector_sync.Base.Exec.{Error, Result, ok, err, wrap_result, wrap, continue, Exec}
use vector_sync.Embedding.{get_client}
use vector_sync.Embedding.Interface.{Wire, Client}
use vector_sync.Services.Interfaces.{Service, on_repo}
use vector_sync.Services.Documents.Ingest.{embed_chunks}

-- `IngestChunks` by its strategies, `IngestEmbedCalls` by its providers and their statuses, and the
-- observations of `IngestEmbedDuration`, the newest first.
pub record IngestMetrics : Type 0 where
  pub ingest_chunks : String → ℕ
  pub embed_calls : String → String → ℕ
  pub embed_durations : List (String × ℕ)

-- `IngestChunks.WithLabelValues(strategy).Add(n)`
unfoldable pub add_chunks : String → ℕ → IngestMetrics → IngestMetrics
add_chunks strategy n m = record m {
  ingest_chunks =
      λ label. if label == strategy then m.ingest_chunks label + n else m.ingest_chunks label;
}

-- `IngestEmbedCalls.WithLabelValues(provider, status).Inc()`
unfoldable pub count_call : String → String → IngestMetrics → IngestMetrics
count_call provider status m = record m {
  embed_calls =
      λ p s. if p == provider && s == status then m.embed_calls p s + 1 else m.embed_calls p s;
}

abbrev pub status_of : {A : Type 0} → Result A → String
status_of (ok a) = "ok"
status_of (err e) = "error"

chunks_counted :
    (strategy : String) (n : ℕ) (m : IngestMetrics)
    → (add_chunks strategy n m).ingest_chunks strategy ≡ m.ingest_chunks strategy + n
unfolding add_chunks
chunks_counted strategy n m = rw ((eq_iff strategy strategy).1 refl) refl

call_counted :
    (provider status : String) (m : IngestMetrics)
    → (count_call provider status m).embed_calls provider status ≡ m.embed_calls provider status + 1
unfolding count_call
call_counted provider status m =
    rw ((eq_iff provider provider).1 refl, (eq_iff status status).1 refl) refl

status_of-wrap_result :
    {A : Type 0} (text : String) (r : Result A) → status_of (wrap_result text r) ≡ status_of r
status_of-wrap_result text (ok a) = refl
status_of-wrap_result text (err e) = refl

module _ {F W : Type 0} (wire : Wire F W) (clock : W → ℕ) where
  -- Behind `GetClient`.
  unfoldable pub observed_call :
      String → List Bytes → Result (Client F W) → Exec (IngestMetrics × Service W) (List (List F))
  observed_call provider chunks (err e) (m, s) = (err e, (m, s))
  observed_call provider chunks (ok client) (m, s) =
      let (r, w) = client.generate_embeddings chunks s.world in
      (
        wrap_result "failed to generate embeddings" r,
        (
          count_call provider (status_of r) (record m {
            embed_durations = (provider, clock w - clock s.world) ∷ m.embed_durations;
          }),
          record s { world = w },
        ),
      )

  -- The steps of `IngestDocument` from the count of the chunks to the embeddings.
  unfoldable pub observed_embed :
      String → String → String → List Bytes → Exec (IngestMetrics × Service W) (List (List F))
  unfolding observed_call
  observed_embed strategy provider model chunks (m, s) =
      observed_call provider chunks
        (wrap_result "failed to initialize embedding client" (get_client wire provider model))
        (add_chunks strategy (length chunks) m, s)

  -- Whether there was a client to call.
  abbrev pub IsCounted :
      String → String → Result (Client F W) → IngestMetrics → IngestMetrics → Type 0
  IsCounted provider status (err e) m m' =
      (m'.embed_calls provider status ≡ m.embed_calls provider status)
      × (m'.embed_durations ≡ m.embed_durations)
  IsCounted provider status (ok client) m m' =
      (m'.embed_calls provider status ≡ m.embed_calls provider status + 1)
      × (length m'.embed_durations ≡ length m.embed_durations + 1)

  -- The steps with their metrics do and answer what they do without; the chunks are counted once under the strategy,
  -- and the call of the provider is counted and timed once, under its status, exactly when there is a client.
  pub observed_embed-embed_chunks :
      (strategy provider model : String) (chunks : List Bytes) (m : IngestMetrics) (s : Service W)
      → let (r, after) = observed_embed strategy provider model chunks (m, s) in
        ((r, after.1) ≡ embed_chunks wire provider model chunks s)
        × ((after.0).ingest_chunks strategy ≡ m.ingest_chunks strategy + length chunks)
        × IsCounted provider (status_of r) (get_client wire provider model) m (after.0)
  unfolding observed_embed embed_chunks add_chunks count_call
  observed_embed-embed_chunks strategy provider model chunks m s =
      called (get_client wire provider model)
    where
      called :
          (q : Result (Client F W))
          → let (r, after) =
              observed_call provider chunks
                (wrap_result "failed to initialize embedding client" q)
                (add_chunks strategy (length chunks) m, s) in
            ((r, after.1)
              ≡ continue
                  (wrap_result "failed to initialize embedding client" q, s)
                  (λ client.
                    wrap "failed to generate embeddings"
                      (on_repo (client.generate_embeddings chunks))))
            × ((after.0).ingest_chunks strategy ≡ m.ingest_chunks strategy + length chunks)
            × IsCounted provider (status_of r) q m (after.0)
      called (err e) = (refl, chunks_counted strategy (length chunks) m, (refl, refl))
      called (ok client) =
          let r = (client.generate_embeddings chunks s.world).0 in
          (
            refl,
            chunks_counted strategy (length chunks) m,
            (
              rw (status_of-wrap_result "failed to generate embeddings" r)
                  (call_counted provider (status_of r) m),
              omega arith,
            ),
          )

-- `HNSWBuildDuration` and `HNSWBuildErrors`.
pub record IndexMetrics : Type 0 where
  pub build_durations : List ℕ
  pub build_errors : ℕ

-- `if err != nil { metrics.HNSWBuildErrors.Inc() }`
abbrev count_error : Option Error → IndexMetrics → IndexMetrics
count_error none m = m
count_error (some e) m = record m { build_errors = m.build_errors + 1 }

-- The goroutine of `Create`, over the statement that builds the index.
unfoldable pub build_index :
    {W : Type 0} → (W → ℕ) → (W → Option Error × W) → IndexMetrics × W → IndexMetrics × W
build_index clock exec (m, w) =
    let (e, w') = exec w in
    (count_error e (record m { build_durations = (clock w' - clock w) ∷ m.build_durations }), w')
