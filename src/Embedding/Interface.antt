-- ===== src/Embedding/Interface.antt =====
-- The interface `Client` of internal/embedding/client.go, and what the clients use of the
-- environment and of HTTP.
use vector_sync.Base.{ℕ, String, ◌≡◌, List, Option, length}
use vector_sync.Base.Int.{ℤ}
use vector_sync.Base.Text.{Bytes}
use vector_sync.Base.Exec.{Error, Result, ok, Exec}

-- A response: its status, the body decoded as the answer, and, where the body decodes as an error
-- object, its message.
pub record Reply (T : Type 0) : Type 0 where
  pub status : ℕ
  pub decoded : Result T
  pub error_message : Option String

-- The request is marshalled, built and sent, and each of these may fail.
pub data Sent (T : Type 0) : Type 0 where
  marshal_failed request_failed send_failed : Error → Sent T
  replied : Reply T → Sent T

-- `os.Getenv`, and a POST for each endpoint: with its base address, the key, the model and the input.
pub record Wire (F W : Type 0) : Type 0 where
  pub getenv : String → String
  pub openai : String → String → String → List Bytes → W → Sent (List (List F × ℤ)) × W
  pub cohere : String → String → String → List Bytes → W → Sent (List (List F)) × W
  pub ollama_embed : Bytes → String → List Bytes → W → Sent (List (List F)) × W
  pub ollama_legacy : Bytes → String → Bytes → W → Sent (List F) × W

pub record Client (F W : Type 0) : Type 0 where
  pub generate_embedding : Bytes → Exec W (List F)
  pub generate_embeddings : List Bytes → Exec W (List (List F))

-- A client answers with one embedding for each text, or with an error.
abbrev pub IsAligned : {F W : Type 0} → Client F W → Type 0
IsAligned {F} {W} client =
    (texts : List Bytes) (w w' : W) (es : List (List F))
    → client.generate_embeddings texts w ≡ (ok es, w')
    → length es ≡ length texts
