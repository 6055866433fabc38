-- ===== src/Examples/Repositories.antt =====
-- Statements, transactions and requests through the repositories, over the database of Database.
use vector_sync.Base.{
  ℕ, ◌*◌, ◌≤◌, ◌≡◌, ◌↔◌, refl, true, false, List, [], ◌∷◌, map, none, some, arith, length, take,
  drop, get_elem?, replicate,
}
use vector_sync.Base.Assoc.{lookup}
use vector_sync.Base.Int.{pos}
use vector_sync.Base.Text.{Bytes, codes}
use vector_sync.Base.Exec.{new_error, Result, ok, err}
use vector_sync.Models.{Collection, Document}
use vector_sync.Cache.{get_info, new_cache}
use vector_sync.Services.Interfaces.{CollectionRepository, Service}
use vector_sync.Services.Collections.{
  is_metric, check_embedding, is_provider, default_metric, create_collection, list_collection,
}
use vector_sync.Services.Documents.{
  fetch_collection, get_collection_info, check_values, check_length, check_vector, create_document,
}
use vector_sync.Services.Documents.Ingest.{chunk_document}
use mathlib.Core.Path.{subst}
use vector_sync.Db.Rows.{read_metadata, read_document}
use vector_sync.Db.Vectors.{vector_to_string, write_loop}
use vector_sync.Db.Statements.{Statement, Arg}
use vector_sync.Db.Statements.Binding.{ok-injective}
use vector_sync.Db.Statements.Combined.{hybrid_statement}
use vector_sync.Db.Statements.Batch.{serialize, prepare, check_marshalled, batch_query, value_loop}
use vector_sync.Db.Statements.Batch.Placeholders.{
  numbers, count_from, document_values, batch_query-binds,
}
use vector_sync.Db.Statements.Batch.Schedule.{Covers, prepare-map}
use vector_sync.Db.Repository.{read_returned, create, insert_batch, document_repository}
use vector_sync.Db.Repository.Atomic.{Committed, insert_batch-Committed}
use vector_sync.Db.Collections.{
  create_row, null_string, find_by_id, read_schema, read_collection, scan_collection, list_page,
  collection_repository,
}
use vector_sync.Db.Collections.Rows.{list_page_iff}
use vector_sync.Db.Collections.Lookup.{create_collection-list_collection}
use vector_sync.Handlers.Metadata.{from_structs, as_maps, Protobuf}
use vector_sync.Handlers.Documents.{
  CreateRequest, BatchInsertRequest, Created, handle_create, handle_get,
}
use vector_sync.Handlers.Documents.RoundTrip.{handle_create-handle_get}
use vector_sync.Examples.Storing.{digit, value, naturals}
use vector_sync.Examples.Database.{
  World, empty_world, test_driver, test_marshal, test_unmarshal, test_codec, new_collection_row,
  test_collection_driver, test_driver-IsTransactional, test_driver-KeepsDocuments,
  test_collection_driver-KeepsRows,
}

abbrev two_documents : List (Document ℕ ℕ)
two_documents =
    chunk_document "c1" (some (("k", 7) ∷ [])) (codes "one") (1 ∷ 2 ∷ [])
    ∷ chunk_document "c1" none (codes "two") (3 ∷ 4 ∷ [])
    ∷ []

insert_batch-Committed_example :
    (((insert_batch naturals test_codec test_driver "c1" two_documents empty_world).1
        ).in_transaction
      ≡ false)
    × Committed test_driver
        (λ w. w.documents)
        []
        (insert_batch naturals test_codec test_driver "c1" two_documents empty_world)
insert_batch-Committed_example =
    insert_batch-Committed naturals test_codec test_driver (λ w. w.documents)
      (λ w. w.in_transaction) test_driver-IsTransactional "c1" two_documents empty_world refl

abbrev two_prepared : List (Bytes × Bytes)
two_prepared = (codes "[1,2]", b'{' ∷ 7 ∷ []) ∷ (codes "[3,4]", codes "n") ∷ []

batch_query-binds_example :
    (numbers (batch_query two_documents)
      ≡ count_from 1 (length (value_loop {F = ℕ} two_documents two_prepared)))
    × ((i : ℕ) (doc : Document ℕ ℕ)
        → get_elem? two_documents i ≡ some doc
        → (json : Bytes) × (test_marshal doc.metadata ≡ ok json)
          × (take 4 (drop (i * 4) (value_loop two_documents two_prepared))
              ≡ document_values {F = ℕ} doc (vector_to_string digit doc.vector) json))
unfolding check_marshalled serialize vector_to_string write_loop
batch_query-binds_example = batch_query-binds digit test_marshal two_documents two_prepared refl

-- The goroutines of 32 documents, the last of which writes first.
abbrev backwards : List ℕ
backwards =
    31 ∷ 30 ∷ 29 ∷ 28 ∷ 27 ∷ 26 ∷ 25 ∷ 24 ∷ 23 ∷ 22 ∷ 21 ∷ 20 ∷ 19 ∷ 18 ∷ 17 ∷ 16 ∷ 15 ∷ 14 ∷ 13
    ∷ 12 ∷ 11 ∷ 10 ∷ 9 ∷ 8 ∷ 7 ∷ 6 ∷ 5 ∷ 4 ∷ 3 ∷ 2 ∷ 1 ∷ 0 ∷ []

abbrev many : List (Document ℕ ℕ)
many = replicate 32 (chunk_document "c1" (some (("k", 7) ∷ [])) (codes "one") (1 ∷ 2 ∷ []))

backwards-Covers : 32 ≤ length many → Covers (length many) backwards
backwards-Covers h j k = ground arith

prepare-map_example :
    prepare digit test_marshal [] backwards many ≡ map (serialize digit test_marshal) many
prepare-map_example = prepare-map digit test_marshal many [] backwards backwards-Covers

abbrev hybrid : Result (Statement (Arg ℕ ℕ))
hybrid = hybrid_statement (codes "t") "c1" (codes "[1,2]") (pos 5) (ok 7 ∷ []) 3 4 true "cosine"

abbrev hybrid_built : Statement (Arg ℕ ℕ)
hybrid_built = elim hybrid [ ok s ↦ s | err e ↦ record { query = []; args = []; arg_index = 0 } ]

abbrev pub words : World
words = record empty_world {
  collections = new_collection_row "words" (pos 2) (codes "n") "cosine" none none ∷ [];
}

list_page_iff_example :
    (◌≡◌ {A = Result (List (Collection ℕ))}
      ((list_page test_marshal test_unmarshal test_collection_driver (pos 20) (pos 0) words).0)
      (ok []))
    ↔ (map (scan_collection test_unmarshal) (map ok words.collections) ≡ map ok [])
list_page_iff_example =
    list_page_iff test_marshal test_unmarshal test_collection_driver (pos 20) (pos 0)
      (map ok words.collections) (some (new_error "connection reset by peer")) words words [] refl

abbrev pub test_repository : CollectionRepository ℕ World
test_repository = collection_repository test_marshal test_unmarshal test_collection_driver

abbrev request : CreateRequest ℕ ℕ
request = record {
  collection_id = "c1";
  content = codes "text";
  vector = 1 ∷ 2 ∷ [];
  metadata = some (("k", 7) ∷ []);
}

abbrev pub protobuf : Protobuf ℕ ℕ ℕ ℕ
protobuf = record {
  as_map = λ s. s;
  boxed = λ m. m;
  boxed_struct = λ s. s;
  as_object = some;
  new_struct = ok;
  timestamp = λ n. n;
  as_time = λ n. n;
}

abbrev pub service : Service World
service = record { collection_cache = new_cache; world = words }

abbrev created_document : Created ℕ
created_document = record { id = "d1"; created_at = 7; updated_at = 7 }

abbrev found : Service World
found =
    (handle_create protobuf (document_repository naturals test_codec test_driver) test_repository
      naturals request service).1

handle_create-handle_get_example :
    (handle_get protobuf (document_repository naturals test_codec test_driver) "d1" found).0
    ≡ ok (record {
      id = "d1";
      created_at = 7;
      updated_at = 7;
      collection_id = "c1";
      content = codes "text";
      vector = 1 ∷ 2 ∷ [];
      metadata = ("k", 7) ∷ [];
    })
unfolding handle_create create_document get_collection_info fetch_collection check_vector
    check_length check_values create read_returned read_document read_metadata find_by_id
    read_schema read_collection from_structs as_maps get_info lookup new_cache
handle_create-handle_get_example =
    handle_create-handle_get naturals test_codec test_driver (λ json. json)
      test_driver-KeepsDocuments protobuf (λ m. refl) (λ s. refl) request
      (
        (refl, ((omega arith, omega arith, ground arith), tt)),
        ((refl, ((omega arith, omega arith, ground arith), tt)), tt),
      )
      (refl, (refl, tt)) test_repository created_document service found
      (λ json h.
        subst (λ j. read_metadata value test_unmarshal j ≡ ok (some (("k", 7) ∷ [])))
          (ok-injective _ json h) refl)
      refl

abbrev made : Collection ℕ
made = record {
  id = "c1";
  name = "words";
  vector_dimension = pos 2;
  distance_metric = "cosine";
  metadata_schema = some [];
  embedding_provider = "openai";
  embedding_model = "m";
  created_at = 7;
  updated_at = 7;
  document_count = pos 0;
}

abbrev made_world : World
made_world = record empty_world {
  collections =
      new_collection_row "words" (pos 2) (b'{' ∷ []) "cosine" (some "openai") (some "m") ∷ [];
}

create_collection-list_collection_example :
    (made.name ≡ "words")
    × (made.vector_dimension ≡ pos 2)
    × (made.distance_metric ≡ default_metric "")
    × (made.embedding_provider ≡ "openai")
    × (made.embedding_model ≡ "m")
    × ((list_collection test_repository made.id made_world).0 ≡ ok made)
    × ((get_collection_info test_repository made.id
          (record { collection_cache = new_cache; world = made_world })).0
        ≡ ok (pos 2, default_metric ""))
unfolding create_collection is_metric default_metric check_embedding is_provider create_row
    null_string read_collection read_schema lookup new_cache
create_collection-list_collection_example =
    create_collection-list_collection test_marshal test_unmarshal test_collection_driver
      test_collection_driver-KeepsRows "words" (pos 2) none "" "openai" "m" made empty_world
      made_world new_cache refl refl

-- The entries name another collection.
abbrev batch : BatchInsertRequest ℕ ℕ
batch = record {
  collection_id = "c1";
  documents = record request { collection_id = "elsewhere" } ∷ [];
}
