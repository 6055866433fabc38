-- ===== src/Examples/Embeddings.antt =====
-- An embedding server in the model: a text's embedding is its first byte, and OpenAI's answer
-- comes in the reverse order.
use mathlib.Core.List.{reverse}
use vector_sync.Base.{
  ℕ, ◌<◌, ◌≡◌, refl, false, List, [], ◌∷◌, map, none, some, length, get_elem?, is_empty, All,
}
use vector_sync.Base.Int.{ℤ, pos}
use vector_sync.Base.Text.{Bytes}
use vector_sync.Base.Exec.{ok}
use vector_sync.Strings.{to_lower, to_lower_rune}
use vector_sync.Embedding.{get_client}
use vector_sync.Embedding.Interface.{Sent, replied, Wire, Client, IsAligned}
use vector_sync.Embedding.OpenAi.{arrange, place, place_item, first_missing}
use vector_sync.Embedding.OpenAi.Order.{last_at, arrange_order}
use vector_sync.Embedding.Ollama.{new_ollama_client, ollama_client, ollama_host}
use vector_sync.Embedding.Aligned.{get_client-IsAligned}

abbrev vector_of : Bytes → List ℕ
vector_of [] = 0 ∷ []
vector_of (c ∷ s) = c ∷ []

abbrev indexed : ℕ → List Bytes → List (List ℕ × ℤ)
indexed i [] = []
indexed i (t ∷ ts) = (vector_of t, pos i) ∷ indexed (Prim.Native.Nat.◌+◌ i 1) ts

abbrev answer : {T : Type 0} → T → Sent T
answer a = replied (record { status = 200; decoded = ok a; error_message = none })

abbrev pub test_wire : {W : Type 0} → Wire ℕ W
test_wire = record {
  getenv = λ name. "key";
  openai = λ base key model texts w. (answer (reverse (indexed 0 texts)), w);
  cohere = λ base key model texts w. (answer (map vector_of texts), w);
  ollama_embed = λ host model texts w. (answer (map vector_of texts), w);
  ollama_legacy = λ host model text w. (answer (vector_of text), w);
}

abbrev items : List (List ℕ × ℤ)
items = (7 ∷ [], pos 1) ∷ (5 ∷ [], pos 0) ∷ []

abbrev vectors : List (List ℕ)
vectors = (5 ∷ []) ∷ (7 ∷ []) ∷ []

arrange_order_example :
    (length vectors ≡ 2)
    × All (λ e. is_empty e ≡ false) vectors
    × ((j : ℕ) → j < 2 → get_elem? vectors j ≡ some (last_at j [] items))
unfolding arrange place place_item first_missing
arrange_order_example = arrange_order 2 items vectors refl

abbrev test_client : Client ℕ (Unit {0})
test_client = ollama_client test_wire (ollama_host "key") "m"

get_client-IsAligned_example : IsAligned test_client
unfolding get_client new_ollama_client to_lower to_lower_rune
get_client-IsAligned_example = get_client-IsAligned test_wire "Ollama" "m" test_client refl
