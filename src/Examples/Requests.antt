-- ===== src/Examples/Requests.antt =====
-- Requests to the services, with repositories whose database counts the calls and knows one
-- collection, "c", of dimension 2.
use text.Mathlib.Text.{◌==◌}
use text.Mathlib.TextEquality.{eq_iff}
use mathlib.Core.Bool.{false≢true}
use vector_sync.Strings.{to_lower}
use vector_sync.Embedding.Cohere.{
  new_cohere_client, cohere_embeddings, cohere_sent, cohere_decoded, cohere_count,
}
use vector_sync.Base.{
  ℕ, ◌+◌, String, ◌≡◌, ◌≢◌, refl, ◌⊎◌, true, false, List, [], ◌∷◌, map, none, some, if◌then◌else◌,
  arith, length, ltb, ◌==◌ as nat_eq,
}
use vector_sync.Base.Assoc.{lookup, insert}
use vector_sync.Base.Int.{pos, to_int32}
use vector_sync.Base.Text.{codes}
use vector_sync.Base.Exec.{no_rows, Result, ok, err, Exec, wrap}
use vector_sync.Models.{Collection, Document}
use vector_sync.Cache.{new_cache, get_info, insert_info}
use vector_sync.Embedding.{get_client}
use vector_sync.Services.Interfaces.{
  CollectionRepository, DocumentRepository, Float32, Service, on_repo,
}
use vector_sync.Services.Collections.{or_empty, default_metric, create_collection, rename_duplicate}
use vector_sync.Services.Collections.Checks.{Refused, IsAcceptable, create_collection_cases}
use vector_sync.Services.Documents.{
  fetch_collection, get_collection_info, get_collection_embedding_info, create_document,
  upsert_document,
}
use vector_sync.Services.Documents.Lookups.{after_hit, get_collection_info-again}
use vector_sync.Services.Documents.Single.{Stores, create_document_cases, upsert_document_cases}
use vector_sync.Services.Documents.Batch.{batch_insert}
use vector_sync.Services.Documents.Batch.Dimensions.{IsBatch, Inserts, batch_insert_cases}
use vector_sync.Services.Documents.Ingest.{
  ChunkingConfig, embed_chunks, chunk_documents, ingest_document,
}
use vector_sync.Services.Documents.Ingest.Total.{ingest_document-returns, embed_chunks-pairs}
use vector_sync.Examples.Embeddings.{test_wire}

-- The database: how often it was called.
abbrev called : {A : Type 0} → A → Exec ℕ A
called a w = (ok a, w + 1)

abbrev pub test_collection : Collection ℕ
test_collection = record {
  id = "c";
  name = "words";
  vector_dimension = pos 2;
  distance_metric = "cosine";
  metadata_schema = none;
  embedding_provider = "ollama";
  embedding_model = "m";
  created_at = 0;
  updated_at = 0;
  document_count = pos 0;
}

abbrev pub test_document : Document ℕ ℕ
test_document = record {
  id = "d";
  collection_id = "c";
  vector = 1 ∷ 2 ∷ [];
  metadata = none;
  content = codes "text";
  created_at = 0;
  updated_at = 0;
}

abbrev pub test_collections : CollectionRepository ℕ ℕ
test_collections = record {
  create = λ name dimension schema metric provider model. called test_collection;
  list = λ limit offset. called (test_collection ∷ []);
  list_by_id = λ id w. (if id == "c" then ok test_collection else err no_rows, w + 1);
  delete_by_id = λ id. called (pos 0);
}

abbrev pub test_documents : DocumentRepository ℕ ℕ ℕ
test_documents = record {
  create = λ id content vector metadata. called test_document;
  upsert = λ document_id id content vector metadata.
      called (record { document = test_document; is_new = true });
  list = λ id limit offset include_vector. called (test_document ∷ []);
  get_by_id = λ id. called test_document;
  delete_by_id = λ id. called tt;
  search = λ id query k filter threshold include_vector metric. called [];
  full_text_search = λ id query limit rank include_vector. called [];
  batch_insert = λ id docs. called (length docs, docs);
  batch_delete = λ id ids. called (0, []);
  hybrid_search = λ id text query k filter v t include_vector metric. called [];
}

-- Numbers in place of float32; none is NaN or infinite.
abbrev pub test_float : Float32 ℕ
test_float = record {
  is_nan = λ x. false;
  is_inf = λ x. false;
  lt = ltb;
  eq = nat_eq;
  add = ◌+◌;
  div = λ x y. x;
  zero = 0;
  half = 0;
  one = 1;
}

abbrev pub start : Service ℕ
start = record { collection_cache = new_cache; world = 0 }

-- The service behind the first lookup of the collection.
abbrev warmed : Service ℕ
warmed = record {
  collection_cache = record {
    cache =
        (
          "c",
          record {
            dimension = pos 2;
            distance_metric = "cosine";
            embedding_provider = "ollama";
            embedding_model = "m";
          },
        )
        ∷ [];
    hits = 0;
    misses = 1;
  };
  world = 1;
}

found : get_collection_info test_collections "c" start ≡ (ok (pos 2, "cosine"), warmed)
unfolding get_collection_info fetch_collection get_info new_cache insert_info insert lookup to_int32
found = refl

get_collection_info-again_example :
    (get_collection_info test_collections "c" warmed ≡ (ok (pos 2, "cosine"), after_hit warmed))
    × (get_collection_embedding_info test_collections "c" warmed
        ≡ ((get_collection_embedding_info test_collections "c" start).0, after_hit warmed))
get_collection_info-again_example =
    get_collection_info-again test_collections "c" (pos 2) "cosine" start warmed found (omega arith)

c_named : test_collection.id ≢ ""
c_named e = false≢true ((eq_iff "c" "").1 e)

abbrev document_ids : List String
document_ids = "d" ∷ []

create_collection_cases_example :
    (IsAcceptable "words" (pos 2) "" "" ""
      × (create_collection test_collections "words" (pos 2) none "" "" "" 0
          ≡ rename_duplicate (
              test_collections.create "words" (pos 2) (or_empty none) (default_metric "") "" "" 0)))
    ⊎ ((¬ IsAcceptable "words" (pos 2) "" "" "")
        × Refused (create_collection test_collections "words" (pos 2) none "" "" "" 0) 0)
create_collection_cases_example =
    create_collection_cases test_collections "words" (pos 2) none "" "" "" 0

create_document_cases_example :
    Stores test_float test_collections "c"
      (1 ∷ 2 ∷ [])
      (wrap "failed to create document"
        (on_repo (test_documents.create "c" (codes "text") (1 ∷ 2 ∷ []) (or_empty none))))
      start
      (create_document test_float test_documents test_collections "c"
        (codes "text")
        (1 ∷ 2 ∷ [])
        none
        start)
create_document_cases_example =
    create_document_cases test_float test_documents test_collections "c" (codes "text") (1 ∷ 2 ∷ [])
      none start

upsert_document_cases_example :
    ((test_document.id ≡ "")
      × Refused
          (upsert_document test_float test_documents test_collections "d" "c"
            (codes "text")
            (1 ∷ [])
            none
            start)
          start)
    ⊎ ((test_document.id ≢ "")
        × Stores test_float test_collections "c"
            (1 ∷ [])
            (wrap "failed to upsert document"
              (on_repo (test_documents.upsert "d" "c" (codes "text") (1 ∷ []) (or_empty none))))
            start
            (upsert_document test_float test_documents test_collections "d" "c"
              (codes "text")
              (1 ∷ [])
              none
              start))
upsert_document_cases_example =
    upsert_document_cases test_float test_documents test_collections "d" "c" (codes "text") (1 ∷ [])
      none start

batch_insert_cases_example :
    (IsBatch "c" (test_document ∷ [])
      × Inserts test_documents test_collections "c"
          (test_document ∷ [])
          start
          (batch_insert test_documents test_collections "c" (test_document ∷ []) start))
    ⊎ ((¬ IsBatch "c" (test_document ∷ []))
        × Refused
            (batch_insert test_documents test_collections "c" (test_document ∷ []) start)
            start)
batch_insert_cases_example =
    batch_insert_cases test_documents test_collections "c" (test_document ∷ []) start

abbrev by_size : ChunkingConfig
by_size = record { strategy = "fixed"; chunk_size = pos 2; chunk_overlap = pos 0 }

ingest_document-returns_example :
    (r : Result (ℕ × List String)) × (t : Service ℕ) × (ingest_document test_wire test_documents
        test_collections "c"
        (codes "abc")
        none
        by_size
        start
      ≡ (some r, t))
ingest_document-returns_example =
    ingest_document-returns test_wire test_documents test_collections "c" (codes "abc") none by_size
      start

embedded :
    embed_chunks test_wire "cohere" "m" (codes "ab" ∷ codes "c" ∷ []) start
    ≡ (ok ((97 ∷ []) ∷ (99 ∷ []) ∷ []), start)
unfolding embed_chunks get_client to_lower new_cohere_client cohere_embeddings cohere_sent
    cohere_decoded cohere_count
embedded = refl

embed_chunks-pairs_example :
    (ds : List (Document ℕ ℕ)) × (chunk_documents "c" none
        (codes "ab" ∷ codes "c" ∷ [])
        ((97 ∷ []) ∷ (99 ∷ []) ∷ [])
      ≡ some ds)
    × (map (λ d. d.content) ds ≡ (codes "ab" ∷ codes "c" ∷ []))
    × (map (λ d. d.vector) ds ≡ ((97 ∷ []) ∷ (99 ∷ []) ∷ []))
embed_chunks-pairs_example =
    embed_chunks-pairs test_wire "c" "cohere" "m" none (codes "ab" ∷ codes "c" ∷ [])
      ((97 ∷ []) ∷ (99 ∷ []) ∷ []) start start embedded
