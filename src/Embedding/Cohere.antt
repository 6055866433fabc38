-- ===== src/Embedding/Cohere.antt =====
-- internal/embedding/cohere.go
use text.Mathlib.Text.{◌==◌ as str_eq}
use vector_sync.Base.{ℕ, String, List, [], ◌∷◌, none, some, ◌==◌, if◌then◌else◌, length}
use vector_sync.Base.Int.{pos}
use vector_sync.Base.Text.{Bytes}
use vector_sync.Base.Exec.{
  Error, message, wrap_error, lit, str, num, new_error, Result, ok, err, Exec, ◌>>=◌,
}
use vector_sync.Embedding.Interface.{
  Reply, Sent, marshal_failed, request_failed, send_failed, replied, Wire, Client,
}
use vector_sync.Embedding.OpenAi.{first_embedding}

-- `if len(apiResp.Embeddings) != len(texts)`
unfoldable pub cohere_count : {F : Type 0} → ℕ → List (List F) → Result (List (List F))
cohere_count n es =
    if length es == n
    then ok es
    else err (
        message
          (lit "expected " ∷ num (pos n) ∷ lit " embeddings, got " ∷ num (pos (length es)) ∷ []))

unfoldable pub cohere_decoded : {F : Type 0} → ℕ → Result (List (List F)) → Result (List (List F))
cohere_decoded n (err e) = err (wrap_error "failed to decode response body" e)
cohere_decoded n (ok es) = cohere_count n es

-- The error of a status other than 200.
unfoldable pub cohere_failure : {F : Type 0} → Reply (List (List F)) → Error
cohere_failure r = elim r.error_message [
  | none ↦ message (lit "cohere API request failed with status code " ∷ num (pos r.status) ∷ [])
  | some m ↦
      if str_eq m ""
      then message (lit "cohere API request failed with status code " ∷ num (pos r.status) ∷ [])
      else message
          (lit "cohere API error: " ∷ str m ∷ lit " (status: " ∷ num (pos r.status) ∷ lit ")" ∷ [])
]

unfoldable pub cohere_sent : {F : Type 0} → ℕ → Sent (List (List F)) → Result (List (List F))
cohere_sent n (marshal_failed e) = err (wrap_error "failed to marshal request body" e)
cohere_sent n (request_failed e) = err (wrap_error "failed to create http request" e)
cohere_sent n (send_failed e) = err (wrap_error "http request failed" e)
cohere_sent n (replied r) =
    if r.status == 200 then cohere_decoded n r.decoded else err (cohere_failure r)

module _ {F W : Type 0} (wire : Wire F W) where
  unfoldable pub cohere_base : String
  cohere_base =
      let base = wire.getenv "COHERE_API_BASE" in
      if str_eq base "" then "https://api.cohere.com" else base

  -- `GenerateEmbeddings`
  unfoldable pub cohere_embeddings : String → String → List Bytes → Exec W (List (List F))
  cohere_embeddings key model [] w = (ok [], w)
  cohere_embeddings key model (t ∷ ts) w =
      let (sent, w') = wire.cohere cohere_base key model (t ∷ ts) w in
      (cohere_sent (length (t ∷ ts)) sent, w')

  -- `GenerateEmbedding`
  unfoldable pub cohere_embedding : String → String → Bytes → Exec W (List F)
  cohere_embedding key model text = do
    es ← cohere_embeddings key model (text ∷ [])
    first_embedding "no embedding returned from Cohere" es

  abbrev pub cohere_client : String → String → Client F W
  cohere_client key model = record {
    generate_embedding = cohere_embedding key model;
    generate_embeddings = cohere_embeddings key model;
  }

  -- `NewCohereEmbeddingClient`
  unfoldable pub new_cohere_client : String → Result (Client F W)
  new_cohere_client model =
      let key = wire.getenv "COHERE_API_KEY" in
      if str_eq key ""
      then err (new_error "COHERE_API_KEY environment variable is not set")
      else ok (cohere_client key model)
