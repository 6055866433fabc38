-- ===== src/Embedding.antt =====
-- internal/embedding: the clients of the embedding providers. The environment, the HTTP exchange and
-- the JSON decoding are parameters; the code behind them is modelled.
pub mod OpenAi
pub mod Cohere
pub mod Ollama
pub mod Interface
pub mod Aligned
use vector_sync.Base.{String, List, [], ◌∷◌, if◌then◌else◌}
use vector_sync.Base.Text.{codes, bytes_eq}
use vector_sync.Base.Exec.{Result, ok, err, message, lit, str, Exec, ◌>>=◌}
use vector_sync.Strings.{to_lower}
use Interface.{Wire, Client}
use OpenAi.{new_openai_client}
use Cohere.{new_cohere_client}
use Ollama.{new_ollama_client}

-- `GetClient`
unfoldable pub get_client : {F W : Type 0} → Wire F W → String → String → Result (Client F W)
get_client wire provider model =
    let name = to_lower provider in
    if bytes_eq name (codes "openai")
    then new_openai_client wire model
    else if bytes_eq name (codes "ollama")
    then new_ollama_client wire model
    else if bytes_eq name (codes "cohere")
    then new_cohere_client wire model
    else err (message (lit "unknown embedding provider: " ∷ str provider ∷ []))
