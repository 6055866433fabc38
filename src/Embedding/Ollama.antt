-- ===== src/Embedding/Ollama.antt =====
-- internal/embedding/ollama.go: the batch endpoint, and the older one for a text at a time where the
-- batch endpoint fails.
use mathlib.Core.List.{reverse}
use text.Mathlib.Text.{◌==◌ as str_eq}
use vector_sync.Base.{ℕ, ◌+◌, String, List, [], ◌∷◌, ◌==◌, if◌then◌else◌, length, is_empty}
use vector_sync.Base.Int.{pos}
use vector_sync.Base.Text.{Bytes, codes}
use vector_sync.Base.Exec.{
  Error, message, wrapped, lit, num, new_error, Result, ok, err, Exec, continue, ◌>>=◌,
}
use vector_sync.Embedding.Interface.{
  Sent, marshal_failed, request_failed, send_failed, replied, Wire, Client,
}

drop_slash : Bytes → Bytes
drop_slash [] = []
drop_slash (c ∷ s) = if c == b'/' then s else c ∷ s

-- `strings.TrimSuffix(host, "/")`
unfoldable pub trim_slash : Bytes → Bytes
unfolding drop_slash
trim_slash s = reverse (drop_slash (reverse s))

unfoldable pub ollama_host : String → Bytes
ollama_host host = trim_slash (codes (if str_eq host "" then "http://localhost:11434" else host))

abbrev pub sent_result : {T : Type 0} → (ℕ → Error) → Sent T → Result T
sent_result status_error (marshal_failed e) = err e
sent_result status_error (request_failed e) = err e
sent_result status_error (send_failed e) = err e
sent_result status_error (replied r) =
    if r.status == 200 then r.decoded else err (status_error r.status)

-- `if len(apiResp.Embeddings) != len(texts)`
unfoldable pub ollama_count : {F : Type 0} → ℕ → Result (List (List F)) → Result (List (List F))
ollama_count n (err e) = err e
ollama_count n (ok es) =
    if length es == n then ok es else err (new_error "mismatch in returned embedding count")

-- `if len(apiResp.Embedding) == 0`
unfoldable pub ollama_nonempty : {F : Type 0} → Result (List F) → Result (List F)
ollama_nonempty (err e) = err e
ollama_nonempty (ok e) = if is_empty e then err (new_error "empty embedding returned") else ok e

module _ {F W : Type 0} (wire : Wire F W) (host : Bytes) (model : String) where
  -- `tryBatchEmbed`
  unfoldable pub try_batch_embed : List Bytes → Exec W (List (List F))
  try_batch_embed texts w =
      let (sent, w') = wire.ollama_embed host model texts w in
      (
        ollama_count (length texts) (
            sent_result (λ code. message (lit "non-200 status code: " ∷ num (pos code) ∷ [])) sent),
        w',
      )

  -- `callLegacyEmbeddings`
  unfoldable pub call_legacy_embeddings : Bytes → Exec W (List F)
  call_legacy_embeddings text w =
      let (sent, w') = wire.ollama_legacy host model text w in
      (
        ollama_nonempty (
            sent_result
              (λ code.
                message (lit "non-200 status code from legacy embeddings: " ∷ num (pos code) ∷ []))
              sent),
        w',
      )

  abbrev pub at_index : {A : Type 0} → ℕ → Result A × W → Result A × W
  at_index i (ok a, w) = (ok a, w)
  at_index i (err e, w) =
      (err (wrapped (lit "failed to generate embedding at index " ∷ num (pos i) ∷ []) e), w)

  -- The loop over the texts of the fallback.
  unfoldable pub legacy_loop : ℕ → List Bytes → Exec W (List (List F))
  legacy_loop i [] w = (ok [], w)
  legacy_loop i (t ∷ ts) w =
      continue (at_index i (call_legacy_embeddings t w))
        λ e. legacy_loop (i + 1) ts >>= λ es w'. (ok (e ∷ es), w')

  abbrev pub or_legacy : List Bytes → Result (List (List F)) × W → Result (List (List F)) × W
  or_legacy texts (ok es, w) = (ok es, w)
  or_legacy texts (err e, w) = legacy_loop 0 texts w

  -- `GenerateEmbeddings`
  unfoldable pub ollama_embeddings : List Bytes → Exec W (List (List F))
  ollama_embeddings [] w = (ok [], w)
  ollama_embeddings (t ∷ ts) w = or_legacy (t ∷ ts) (try_batch_embed (t ∷ ts) w)

  abbrev first_or_legacy : Bytes → Result (List (List F)) × W → Result (List F) × W
  first_or_legacy text (ok [], w) = call_legacy_embeddings text w
  first_or_legacy text (ok (e ∷ es), w) = (ok e, w)
  first_or_legacy text (err e, w) = call_legacy_embeddings text w

  -- `GenerateEmbedding`
  unfoldable pub ollama_embedding : Bytes → Exec W (List F)
  ollama_embedding text w = first_or_legacy text (try_batch_embed (text ∷ []) w)

abbrev pub ollama_client : {F W : Type 0} → Wire F W → Bytes → String → Client F W
ollama_client wire host model = record {
  generate_embedding = ollama_embedding wire host model;
  generate_embeddings = ollama_embeddings wire host model;
}

-- `NewOllamaEmbeddingClient`
unfoldable pub new_ollama_client : {F W : Type 0} → Wire F W → String → Result (Client F W)
new_ollama_client wire model =
    ok (ollama_client wire (ollama_host (wire.getenv "OLLAMA_HOST")) model)
