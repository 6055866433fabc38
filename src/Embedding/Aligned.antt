-- ===== src/Embedding/Aligned.antt =====
-- How many embeddings the clients answer with.
use mathlib.Core.Path.{subst}
use text.Mathlib.Text.{◌==◌ as str_eq}
use vector_sync.Base.{
  ℕ, suc, ◌+◌, String, ◌≡◌, refl, ap, inl, inr, Bool, true, false, List, [], ◌∷◌, arith, ◌==◌,
  if◌then◌else◌, length, Bool-cases,
}
use vector_sync.Base.Int.{ℤ}
use vector_sync.Base.Text.{Bytes, codes, bytes_eq}
use vector_sync.Base.Exec.{Result, ok, err, continue}
use vector_sync.Strings.{to_lower}
use vector_sync.Embedding.{get_client}
use vector_sync.Embedding.Interface.{
  Sent, marshal_failed, request_failed, send_failed, replied, Wire, Client, IsAligned,
}
use vector_sync.Embedding.OpenAi.{
  arrange, openai_decoded, openai_reply, openai_sent, openai_embeddings, openai_client,
  new_openai_client,
}
use vector_sync.Embedding.OpenAi.Order.{arrange_order}
use vector_sync.Embedding.Cohere.{
  cohere_count, cohere_decoded, cohere_sent, cohere_embeddings, cohere_client, new_cohere_client,
}
use vector_sync.Embedding.Ollama.{
  ollama_count, try_batch_embed, call_legacy_embeddings, at_index, legacy_loop, or_legacy,
  ollama_embeddings, ollama_host, ollama_client, new_ollama_client,
}

-- An answer, if there is one, has `n` embeddings.
abbrev Counts : {F : Type 0} → ℕ → Result (List (List F)) → Type 0
Counts n (ok es) = length es ≡ n
Counts n (err e) = Unit {0}

openai_sent-Counts :
    {F : Type 0} (n : ℕ) (s : Sent (List (List F × ℤ))) → Counts n (openai_sent n s)
unfolding openai_sent openai_reply openai_decoded
openai_sent-Counts n (marshal_failed e) = tt
openai_sent-Counts n (request_failed e) = tt
openai_sent-Counts n (send_failed e) = tt
openai_sent-Counts {F} n (replied r) = elim (Bool-cases (r.status == 200)) [
  | inl e ↦ rw e (decoded r.decoded)
  | inr e ↦ rw e tt
]
  where
    counted :
        (q : Result (List (List F))) (items : List (List F × ℤ)) → arrange n items ≡ q → Counts n q
    counted (ok es) items h = (arrange_order n items es h).0
    counted (err e) items h = tt

    decoded : (q : Result (List (List F × ℤ))) → Counts n (openai_decoded n q)
    decoded (ok items) = counted (arrange n items) items refl
    decoded (err e) = tt

cohere_count-Counts : {F : Type 0} (n : ℕ) (es : List (List F)) → Counts n (cohere_count n es)
unfolding cohere_count
cohere_count-Counts n es = elim (Bool-cases (length es == n)) [
  | inl e ↦ rw e (ground arith)
  | inr e ↦ rw e tt
]

cohere_sent-Counts : {F : Type 0} (n : ℕ) (s : Sent (List (List F))) → Counts n (cohere_sent n s)
unfolding cohere_sent cohere_decoded
cohere_sent-Counts n (marshal_failed e) = tt
cohere_sent-Counts n (request_failed e) = tt
cohere_sent-Counts n (send_failed e) = tt
cohere_sent-Counts {F} n (replied r) = elim (Bool-cases (r.status == 200)) [
  | inl e ↦ rw e (decoded r.decoded)
  | inr e ↦ rw e tt
]
  where
    decoded : (q : Result (List (List F))) → Counts n (cohere_decoded n q)
    decoded (ok es) = cohere_count-Counts n es
    decoded (err e) = tt

ollama_count-Counts :
    {F : Type 0} (n : ℕ) (q : Result (List (List F))) → Counts n (ollama_count n q)
unfolding ollama_count
ollama_count-Counts n (err e) = tt
ollama_count-Counts n (ok es) = elim (Bool-cases (length es == n)) [
  | inl e ↦ rw e (ground arith)
  | inr e ↦ rw e tt
]

Counts-ok :
    {F : Type 0} (n : ℕ) (r : Result (List (List F))) (es : List (List F))
    → Counts n r
    → r ≡ ok es
    → length es ≡ n
Counts-ok n (ok xs) es h e = ground arith
Counts-ok n (err x) es h e = ground arith

module _ {F W : Type 0} where
  -- What a run of a client has to show.
  abbrev Answers : ℕ → Result (List (List F)) × W → Type 0
  Answers n r = Counts n (r.0)

  openai-Answers :
      (wire : Wire F W) (key model : String) (texts : List Bytes) (w : W)
      → Answers (length texts) (openai_embeddings wire key model texts w)
  unfolding openai_embeddings
  openai-Answers wire key model [] w = refl
  openai-Answers wire key model (t ∷ ts) w = openai_sent-Counts (length (t ∷ ts)) _

  cohere-Answers :
      (wire : Wire F W) (key model : String) (texts : List Bytes) (w : W)
      → Answers (length texts) (cohere_embeddings wire key model texts w)
  unfolding cohere_embeddings
  cohere-Answers wire key model [] w = refl
  cohere-Answers wire key model (t ∷ ts) w = cohere_sent-Counts (length (t ∷ ts)) _

  rest-Answers :
      (n : ℕ) (e : List F) (r : Result (List (List F)) × W)
      → Answers n r
      → Answers (suc n) (continue r (λ es w. (ok (e ∷ es), w)))
  rest-Answers n e (ok es, w) h = ap suc h
  rest-Answers n e (err x, w) h = tt

  legacy_loop-Answers :
      (wire : Wire F W) (host : Bytes) (model : String) (i : ℕ) (texts : List Bytes) (w : W)
      → Answers (length texts) (legacy_loop wire host model i texts w)
  unfolding legacy_loop
  legacy_loop-Answers wire host model i [] w = refl
  legacy_loop-Answers wire host model i (t ∷ ts) w =
      one (call_legacy_embeddings wire host model t w)
        (λ w'. legacy_loop-Answers wire host model (i + 1) ts w')
    where
      one :
          (r : Result (List F) × W)
          → ((w' : W) → Answers (length ts) (legacy_loop wire host model (i + 1) ts w'))
          → Answers (suc (length ts)) (
              continue (at_index wire host model i r) (λ e w'.
                continue
                  (legacy_loop wire host model (i + 1) ts w')
                  (λ es w''. (ok (e ∷ es), w''))))
      one (ok e, w') h =
          rest-Answers (length ts) e (legacy_loop wire host model (i + 1) ts w') (h w')
      one (err e, w') h = tt

  ollama-Answers :
      (wire : Wire F W) (host : Bytes) (model : String) (texts : List Bytes) (w : W)
      → Answers (length texts) (ollama_embeddings wire host model texts w)
  unfolding ollama_embeddings try_batch_embed
  ollama-Answers wire host model [] w = refl
  ollama-Answers wire host model (t ∷ ts) w = either _ _ (ollama_count-Counts (length (t ∷ ts)) _)
    where
      either :
          (r : Result (List (List F))) (w' : W)
          → Counts (length (t ∷ ts)) r
          → Answers (length (t ∷ ts)) (or_legacy wire host model (t ∷ ts) (r, w'))
      either (ok es) w' h = h
      either (err e) w' h = legacy_loop-Answers wire host model 0 (t ∷ ts) w'

  -- A client, if there is one, is aligned.
  abbrev Aligns : Result (Client F W) → Type 0
  Aligns (ok client) = IsAligned client
  Aligns (err e) = Unit {0}

  Answers-Aligns :
      (client : Client F W)
      → ((texts : List Bytes) (w : W) → Answers (length texts) (client.generate_embeddings texts w))
      → Aligns (ok client)
  Answers-Aligns client h texts w w' es e =
      Counts-ok (length texts) _ es (h texts w) (ap (λ r. r.0) e)

  Aligns-if :
      (b : Bool) (p q : Result (Client F W)) → Aligns p → Aligns q → Aligns (if b then p else q)
  Aligns-if true p q h k = h
  Aligns-if false p q h k = k

  new_openai_client-Aligns :
      (wire : Wire F W) (model : String) → Aligns (new_openai_client wire model)
  unfolding new_openai_client
  new_openai_client-Aligns wire model =
      Aligns-if (str_eq (wire.getenv "OPENAI_API_KEY") "") _ (ok _) tt (
        Answers-Aligns (openai_client wire (wire.getenv "OPENAI_API_KEY") model)
          (openai-Answers wire (wire.getenv "OPENAI_API_KEY") model))

  new_cohere_client-Aligns :
      (wire : Wire F W) (model : String) → Aligns (new_cohere_client wire model)
  unfolding new_cohere_client
  new_cohere_client-Aligns wire model =
      Aligns-if (str_eq (wire.getenv "COHERE_API_KEY") "") _ (ok _) tt (
        Answers-Aligns (cohere_client wire (wire.getenv "COHERE_API_KEY") model)
          (cohere-Answers wire (wire.getenv "COHERE_API_KEY") model))

  new_ollama_client-Aligns :
      (wire : Wire F W) (model : String) → Aligns (new_ollama_client wire model)
  unfolding new_ollama_client
  new_ollama_client-Aligns wire model =
      Answers-Aligns (ollama_client wire (ollama_host (wire.getenv "OLLAMA_HOST")) model)
        (ollama-Answers wire (ollama_host (wire.getenv "OLLAMA_HOST")) model)

  get_client-Aligns :
      (wire : Wire F W) (provider model : String) → Aligns (get_client wire provider model)
  unfolding get_client
  get_client-Aligns wire provider model =
      Aligns-if (bytes_eq name (codes "openai")) _ _ (new_openai_client-Aligns wire model) (
        Aligns-if (bytes_eq name (codes "ollama")) _ _ (new_ollama_client-Aligns wire model)
          (Aligns-if (bytes_eq name (codes "cohere")) _ _ (new_cohere_client-Aligns wire model) tt))
    where
      name : List ℕ
      name = to_lower provider

  -- Whatever the provider, the environment and the server's answers, a client that `GetClient` gives
  -- answers with as many embeddings as there are texts, or with an error.
  pub get_client-IsAligned :
      (wire : Wire F W) (provider model : String) (client : Client F W)
      → get_client wire provider model ≡ ok client
      → IsAligned client
  get_client-IsAligned wire provider model client h =
      subst Aligns h (get_client-Aligns wire provider model)
