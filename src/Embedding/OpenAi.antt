-- ===== src/Embedding/OpenAi.antt =====
-- internal/embedding/openai.go
pub mod Order
use text.Mathlib.Text.{◌==◌ as str_eq}
use vector_sync.Base.{
  ℕ, suc, ◌+◌, String, ◌≡◌, refl, Bool, true, false, not, List, [], ◌∷◌, Option, none, some, ◌==◌,
  ltb, if◌then◌else◌, length, set, replicate, is_empty,
}
use vector_sync.Base.Int.{ℤ, pos, negsuc}
use vector_sync.Base.Text.{Bytes}
use vector_sync.Base.Exec.{
  Error, message, wrap_error, lit, str, num, new_error, Result, ok, err, wrap_result, Exec, raise,
  ◌>>=◌,
}
use vector_sync.Embedding.Interface.{
  Reply, Sent, marshal_failed, request_failed, send_failed, replied, Wire, Client,
}

-- `xs[i] = a`. Out of range this is a panic, so it asks for the test that the index is in range.
abbrev pub write_at : {A : Type 0} (xs : List A) (i : ℕ) → ltb i (length xs) ≡ true → A → List A
write_at xs i within a = set xs i a

-- The write under the test `item.Index < len(results)`, which comes out as `b`.
abbrev pub write_if :
    {F : Type 0} (e : List F) (i : ℕ) (results : List (List F)) (b : Bool)
    → ltb i (length results) ≡ b
    → List (List F)
write_if e i results true within = write_at results i within e
write_if e i results false outside = results

-- `if item.Index >= 0 && item.Index < len(results) { results[item.Index] = item.Embedding }`
unfoldable pub place_item : {F : Type 0} → List F → ℤ → List (List F) → List (List F)
place_item e (pos i) results = write_if e i results (ltb i (length results)) refl
place_item e (negsuc i) results = results

unfoldable pub place : {F : Type 0} → List (List F × ℤ) → List (List F) → List (List F)
unfolding place_item
place [] results = results
place ((e, i) ∷ items) results = place items (place_item e i results)

-- The first place that is not populated.
unfoldable pub first_missing : {F : Type 0} → ℕ → List (List F) → Option ℕ
first_missing i [] = none
first_missing i (e ∷ es) = if is_empty e then some i else first_missing (i + 1) es

-- What is returned of the decoded answer.
unfoldable pub arrange : {F : Type 0} → ℕ → List (List F × ℤ) → Result (List (List F))
arrange n items =
    let results = place items (replicate n []) in
    elim (first_missing 0 results) [
      | none ↦ ok results
      | some i ↦ err (message (lit "missing embedding for input index " ∷ num (pos i) ∷ []))
    ]

-- The error of a status other than 200.
unfoldable pub openai_failure : {F : Type 0} → Reply (List (List F × ℤ)) → Error
openai_failure r = elim r.error_message [
  | none ↦ message (lit "openai API request failed with status code " ∷ num (pos r.status) ∷ [])
  | some m ↦
      if str_eq m ""
      then message (lit "openai API request failed with status code " ∷ num (pos r.status) ∷ [])
      else message
          (lit "openai API error: " ∷ str m ∷ lit " (status: " ∷ num (pos r.status) ∷ lit ")" ∷ [])
]

unfoldable pub openai_decoded :
    {F : Type 0} → ℕ → Result (List (List F × ℤ)) → Result (List (List F))
openai_decoded n (err e) = err (wrap_error "failed to decode response body" e)
openai_decoded n (ok items) = arrange n items

unfoldable pub openai_reply : {F : Type 0} → ℕ → Reply (List (List F × ℤ)) → Result (List (List F))
openai_reply n r = if r.status == 200 then openai_decoded n r.decoded else err (openai_failure r)

unfoldable pub openai_sent : {F : Type 0} → ℕ → Sent (List (List F × ℤ)) → Result (List (List F))
openai_sent n (marshal_failed e) = err (wrap_error "failed to marshal request body" e)
openai_sent n (request_failed e) = err (wrap_error "failed to create http request" e)
openai_sent n (send_failed e) = err (wrap_error "http request failed" e)
openai_sent n (replied r) = openai_reply n r

-- `embeddings[0]`, behind the test of its being there.
abbrev pub first_embedding : {F W : Type 0} → String → List (List F) → Exec W (List F)
first_embedding text [] = raise (new_error text)
first_embedding text (e ∷ es) = λ w. (ok e, w)

module _ {F W : Type 0} (wire : Wire F W) where
  -- `if apiBase == "" { apiBase = "https://api.openai.com" }`
  unfoldable pub openai_base : String
  openai_base =
      let base = wire.getenv "OPENAI_API_BASE" in
      if str_eq base "" then "https://api.openai.com" else base

  -- `GenerateEmbeddings`
  unfoldable pub openai_embeddings : String → String → List Bytes → Exec W (List (List F))
  openai_embeddings key model [] w = (ok [], w)
  openai_embeddings key model (t ∷ ts) w =
      let (sent, w') = wire.openai openai_base key model (t ∷ ts) w in
      (openai_sent (length (t ∷ ts)) sent, w')

  -- `GenerateEmbedding`
  unfoldable pub openai_embedding : String → String → Bytes → Exec W (List F)
  openai_embedding key model text = do
    es ← openai_embeddings key model (text ∷ [])
    first_embedding "no embedding returned from OpenAI" es

  abbrev pub openai_client : String → String → Client F W
  openai_client key model = record {
    generate_embedding = openai_embedding key model;
    generate_embeddings = openai_embeddings key model;
  }

  -- `NewOpenAIEmbeddingClient`
  unfoldable pub new_openai_client : String → Result (Client F W)
  new_openai_client model =
      let key = wire.getenv "OPENAI_API_KEY" in
      if str_eq key ""
      then err (new_error "OPENAI_API_KEY environment variable is not set")
      else ok (openai_client key model)
