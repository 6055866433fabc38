-- ===== src/Examples/Sequences.antt =====
-- RPCs one after the other, over the small database.
use text.Mathlib.Text.{◌==◌}
use text.Mathlib.TextEquality.{eq_iff}
use vector_sync.Base.{
  ℕ, String, ◌≡◌, refl, sym, ap, ◌∙◌, inl, inr, List, [], ◌∷◌, Option, none, some, arith,
  Bool-cases,
}
use vector_sync.Base.Assoc.{lookup}
use vector_sync.Base.Int.{pos}
use vector_sync.Base.Text.{Bytes, codes}
use vector_sync.Base.Exec.{new_error, Result, ok, err, Exec}
use vector_sync.Cache.{CollectionInfo, new_cache}
use vector_sync.Services.Interfaces.{Service}
use vector_sync.Services.Documents.Ingest.{ChunkingConfig}
use vector_sync.Services.Documents.Coherent.{Table, IsCoherent}
use vector_sync.Services.Documents.Coherent.Clients.{LeavesTables}
use vector_sync.Db.Collections.{CollectionRow, CollectionDriver, collection_repository}
use vector_sync.Db.Repository.{document_repository}
use vector_sync.Handlers.Collections
use vector_sync.Handlers.Documents.{CreateRequest}
use vector_sync.Handlers.Rpcs.{
  Rpc, create_collection, create_document, ingest_document, list_collection, check, after_rpcs,
}
use vector_sync.Handlers.Rpcs.Database.{row_entry, KeepsTable, after_rpcs-IsCoherent}
use vector_sync.Examples.Database.{
  World, empty_world, test_codec, test_driver, test_collection_driver, find_collection,
  new_collection_row, test_marshal, test_unmarshal,
}
use vector_sync.Examples.Embeddings.{test_wire}
use vector_sync.Examples.Repositories.{protobuf}
use vector_sync.Examples.Requests.{test_float}

abbrev config : ChunkingConfig
config = record { strategy = "sentence"; chunk_size = pos 0; chunk_overlap = pos 0 }

abbrev create_request : CreateRequest ℕ ℕ
create_request = record {
  collection_id = "c1";
  content = codes "text";
  vector = 1 ∷ 2 ∷ [];
  metadata = none;
}

abbrev collection_request : Collections.CreateRequest ℕ
collection_request = record {
  name = "more";
  vector_dimension = pos 2;
  metadata_schema = none;
  distance_metric = "";
  embedding_provider = "ollama";
  embedding_model = "m";
}

-- The third fails, for it names no collection, and so does the last insertion of a collection.
abbrev rpcs : List (Rpc ℕ ℕ ℕ)
rpcs =
    create_collection collection_request
    ∷ create_document create_request
    ∷ create_document (record create_request { collection_id = "b" })
    ∷ ingest_document (record {
      collection_id = "c1";
      content = codes "One. Two.";
      metadata = none;
      chunking_config = some config;
    })
    ∷ list_collection "c1"
    ∷ create_collection collection_request
    ∷ check "readiness"
    ∷ []

-- The insertion fails where the id is in the table.
abbrev insert_new : Result CollectionRow → CollectionRow → World → Result CollectionRow × World
insert_new (ok old) row w = (err (new_error "duplicate key value"), w)
insert_new (err e) row w = (ok row, record w { collections = row ∷ w.collections })

abbrev careful_driver : CollectionDriver Bytes World
careful_driver = record test_collection_driver {
  insert_collection = λ name dimension json metric provider model w.
      insert_new (find_collection "c1" w.collections)
        (new_collection_row name dimension json metric provider model) w;
}

abbrev entry_of : Result CollectionRow → Option CollectionInfo
entry_of (ok row) = some (row_entry row)
entry_of (err e) = none

abbrev table : Table World
table id w = entry_of (find_collection id w.collections)

insert_new-keeps :
    (r : Result CollectionRow) (row : CollectionRow) (w : World) (id : String)
    (info : CollectionInfo)
    → find_collection "c1" w.collections ≡ r
    → row.id ≡ "c1"
    → table id w ≡ some info
    → table id ((insert_new r row w).1) ≡ some info
insert_new-keeps (ok old) row w id info e n h = h
insert_new-keeps (err x) row w id info e n h = elim (Bool-cases (row.id == id)) [
  | inl b ↦
      let same = sym n ∙ (eq_iff row.id id).0 b in
      let gone : none ≡ some info = ap entry_of (sym e) ∙ ap (λ i. table i w) same ∙ h in
      absurd (ground arith)
  | inr b ↦ rw b h
]

careful_driver-KeepsTable : KeepsTable test_float test_codec test_driver careful_driver table
careful_driver-KeepsTable = record {
  row_is_held = λ id w w' row e. ap (λ r. table id (r.1)) (sym e) ∙ ap (λ r. entry_of (r.0)) e;
  select_quiet = λ i w id info h. h;
  page_quiet = λ limit offset w id info h. h;
  insert_quiet = λ name dimension json metric provider model w id info h.
      insert_new-keeps (find_collection "c1" w.collections)
        (new_collection_row name dimension json metric provider model) w id info refl refl h;
  index_quiet = λ indexed ops_class w id info h. h;
  row_quiet = λ i vector json content w id info h. h;
  upsert_quiet = λ d i vector json content w id info h. h;
  search_quiet = λ vector i k entries threshold v metric statement e w id info h. h;
  full_text_quiet = λ query i limit rank v w id info h. h;
  hybrid_quiet = λ text i vector k entries a b v metric statement e w id info h. h;
  begin_quiet = λ w id info h. h;
  set_local_quiet = λ w id info h. h;
  batch_quiet = λ docs args w id info h. h;
  commit_quiet = λ w id info h. h;
  rollback_quiet = λ w id info h. h;
  list_quiet = λ i limit offset v w id info h. h;
  get_quiet = λ i w id info h. h;
  delete_quiet = λ i w id info h. h;
  delete_all_quiet = λ ids i w id info h. h;
}

abbrev test_ping : Exec World (Unit {0})
test_ping w = (ok tt, w)

leaves_tables : LeavesTables {F = ℕ} test_wire table
leaves_tables = record {
  openai_quiet = λ base key model texts w id info h. h;
  cohere_quiet = λ base key model texts w id info h. h;
  ollama_quiet = λ host model texts w id info h. h;
  legacy_quiet = λ host model text w id info h. h;
}

abbrev fresh_service : Service World
fresh_service = record { collection_cache = new_cache; world = empty_world }

fresh_service-IsCoherent : IsCoherent table fresh_service
unfolding lookup new_cache
fresh_service-IsCoherent id info e = ground arith

after_rpcs-IsCoherent_example : IsCoherent table (
    after_rpcs protobuf test_float test_wire
      (λ x. "0")
      test_ping
      (document_repository test_float test_codec test_driver)
      (collection_repository test_marshal test_unmarshal careful_driver)
      rpcs
      fresh_service)
after_rpcs-IsCoherent_example =
    after_rpcs-IsCoherent test_float test_codec test_driver careful_driver table
      careful_driver-KeepsTable protobuf test_wire (λ x. "0") test_ping (λ w id info h. h)
      leaves_tables rpcs fresh_service (tt, (tt, (tt, (tt, (tt, (tt, (tt, tt)))))))
      fresh_service-IsCoherent
