-- ===== src/Services/Documents/Coherent/Clients.antt =====
-- The clients of the embedding providers and the table of collections.
use text.Mathlib.Text.{◌==◌ as str_eq}
use vector_sync.Base.{ℕ, String, ◌≡◌, Bool, true, false, List, [], ◌∷◌, some, if◌then◌else◌, ◌+◌}
use vector_sync.Base.Text.{Bytes, codes, bytes_eq}
use vector_sync.Base.Exec.{Result, ok, err, lift, wrap_result, wrap, ◌>>=◌}
use vector_sync.Base.Keeps.{Keeps, lift-Keeps, wrap-Keeps, continue-keeps}
use vector_sync.Cache.{CollectionInfo}
use vector_sync.Strings.{to_lower}
use vector_sync.Embedding.{get_client}
use vector_sync.Embedding.Interface.{Wire, Client}
use vector_sync.Embedding.OpenAi.{openai_base, openai_embeddings, new_openai_client}
use vector_sync.Embedding.Cohere.{cohere_base, cohere_embeddings, new_cohere_client}
use vector_sync.Embedding.Ollama.{
  try_batch_embed, call_legacy_embeddings, at_index, legacy_loop, or_legacy, ollama_embeddings,
  new_ollama_client, ollama_host,
}
use vector_sync.Services.Interfaces.{on_repo}
use vector_sync.Services.Documents.Ingest.{embed_chunks}
use vector_sync.Services.Documents.Coherent.{Table, IsCoherent, IsQuiet, on_repo-IsCoherent}

-- Behind any call of a provider the table still holds what it held.
pub record LeavesTables {F W : Type 0} (wire : Wire F W) (table : Table W) : Type 0 where
  pub openai_quiet :
      (base key model : String) (texts : List Bytes) (w : W) (id : String) (info : CollectionInfo)
      → table id w ≡ some info
      → table id ((wire.openai base key model texts w).1) ≡ some info
  pub cohere_quiet :
      (base key model : String) (texts : List Bytes) (w : W) (id : String) (info : CollectionInfo)
      → table id w ≡ some info
      → table id ((wire.cohere base key model texts w).1) ≡ some info
  pub ollama_quiet :
      (host : Bytes) (model : String) (texts : List Bytes) (w : W) (id : String)
      (info : CollectionInfo)
      → table id w ≡ some info
      → table id ((wire.ollama_embed host model texts w).1) ≡ some info
  pub legacy_quiet :
      (host : Bytes) (model : String) (text : Bytes) (w : W) (id : String) (info : CollectionInfo)
      → table id w ≡ some info
      → table id ((wire.ollama_legacy host model text w).1) ≡ some info

module _ {F W : Type 0} (wire : Wire F W) (table : Table W) (laws : LeavesTables wire table) where
  openai-IsQuiet :
      (key model : String) (texts : List Bytes)
      → IsQuiet table (openai_embeddings wire key model texts)
  unfolding openai_embeddings
  openai-IsQuiet key model [] w id info h = h
  openai-IsQuiet key model (t ∷ ts) w id info h =
      laws.openai_quiet (openai_base wire) key model (t ∷ ts) w id info h

  cohere-IsQuiet :
      (key model : String) (texts : List Bytes)
      → IsQuiet table (cohere_embeddings wire key model texts)
  unfolding cohere_embeddings
  cohere-IsQuiet key model [] w id info h = h
  cohere-IsQuiet key model (t ∷ ts) w id info h =
      laws.cohere_quiet (cohere_base wire) key model (t ∷ ts) w id info h

  -- What the table holds of one collection.
  abbrev Holds : String → CollectionInfo → W → Type 0
  Holds id info w = table id w ≡ some info

  at_index-Holds :
      {A : Type 0} (host : Bytes) (model : String) (i : ℕ) (r : Result A × W) (id : String)
      (info : CollectionInfo)
      → Holds id info (r.1)
      → Holds id info ((at_index wire host model i r).1)
  at_index-Holds host model i (ok a, w) id info h = h
  at_index-Holds host model i (err e, w) id info h = h

  legacy_loop-IsQuiet :
      (host : Bytes) (model : String) (i : ℕ) (texts : List Bytes)
      → IsQuiet table (legacy_loop wire host model i texts)
  unfolding legacy_loop call_legacy_embeddings
  legacy_loop-IsQuiet host model i [] w id info h = h
  legacy_loop-IsQuiet host model i (t ∷ ts) w id info h =
      continue-keeps {P = Holds id info}
        (at_index wire host model i (call_legacy_embeddings wire host model t w)) _
        (λ e. record {
          kept = λ w' h'.
              continue-keeps {P = Holds id info} (legacy_loop wire host model (i + 1) ts w') _
                (λ es. lift-Keeps (ok (e ∷ es)))
                (legacy_loop-IsQuiet host model (i + 1) ts w' id info h');
        })
        (at_index-Holds host model i (call_legacy_embeddings wire host model t w) id info
          (laws.legacy_quiet host model t w id info h))

  or_legacy-Holds :
      (host : Bytes) (model : String) (texts : List Bytes) (r : Result (List (List F)) × W)
      (id : String) (info : CollectionInfo)
      → Holds id info (r.1)
      → Holds id info ((or_legacy wire host model texts r).1)
  or_legacy-Holds host model texts (ok es, w) id info h = h
  or_legacy-Holds host model texts (err e, w) id info h =
      legacy_loop-IsQuiet host model 0 texts w id info h

  ollama-IsQuiet :
      (host : Bytes) (model : String) (texts : List Bytes)
      → IsQuiet table (ollama_embeddings wire host model texts)
  unfolding ollama_embeddings try_batch_embed
  ollama-IsQuiet host model [] w id info h = h
  ollama-IsQuiet host model (t ∷ ts) w id info h =
      or_legacy-Holds host model (t ∷ ts) (try_batch_embed wire host model (t ∷ ts) w) id info
        (laws.ollama_quiet host model (t ∷ ts) w id info h)

  -- A client, if there is one, is quiet.
  abbrev Quiets : Result (Client F W) → Type 0
  Quiets (ok client) = (texts : List Bytes) → IsQuiet table (client.generate_embeddings texts)
  Quiets (err e) = Unit {0}

  Quiets-if :
      (b : Bool) (p q : Result (Client F W)) → Quiets p → Quiets q → Quiets (if b then p else q)
  Quiets-if true p q h k = h
  Quiets-if false p q h k = k

  get_client-Quiets : (provider model : String) → Quiets (get_client wire provider model)
  unfolding get_client new_openai_client new_cohere_client new_ollama_client
  get_client-Quiets provider model =
      Quiets-if (bytes_eq (to_lower provider) (codes "openai")) _ _
        (Quiets-if (str_eq (wire.getenv "OPENAI_API_KEY") "") _ (ok _) tt
          (openai-IsQuiet (wire.getenv "OPENAI_API_KEY") model))
        (Quiets-if (bytes_eq (to_lower provider) (codes "ollama")) _ _
          (ollama-IsQuiet (ollama_host (wire.getenv "OLLAMA_HOST")) model)
          (Quiets-if (bytes_eq (to_lower provider) (codes "cohere")) _ _
            (Quiets-if (str_eq (wire.getenv "COHERE_API_KEY") "") _ (ok _) tt
              (cohere-IsQuiet (wire.getenv "COHERE_API_KEY") model))
            tt))

  generated-Keeps :
      (chunks : List Bytes) (r : Result (Client F W))
      → Quiets r
      → Keeps (IsCoherent table) (
          lift (wrap_result "failed to initialize embedding client" r) >>= λ client.
          wrap "failed to generate embeddings" (on_repo (client.generate_embeddings chunks)))
  generated-Keeps chunks (ok client) q =
      wrap-Keeps _ _ (on_repo-IsCoherent table (client.generate_embeddings chunks) (q chunks))
  generated-Keeps chunks (err e) q = lift-Keeps _

  pub embed_chunks-Keeps :
      (provider model : String) (chunks : List Bytes)
      → Keeps (IsCoherent table) (embed_chunks wire provider model chunks)
  unfolding embed_chunks
  embed_chunks-Keeps provider model chunks =
      generated-Keeps chunks (get_client wire provider model) (get_client-Quiets provider model)
