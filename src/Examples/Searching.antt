-- ===== src/Examples/Searching.antt =====
-- A search from the request to the statement, over the small database.
use mathlib.Core.Bool.{false≢true}
use text.Mathlib.TextEquality.{eq_iff}
use vector_sync.Services.Documents.Hybrid.{FitsIfGiven}
use vector_sync.Handlers.Searches.Hybrid.{handle_hybrid-IsHybridQuery}
use vector_sync.Base.{All, ℕ, ◌≡◌, ◌≢◌, refl, ◌⊎◌, false, true, [], ◌∷◌, map}
use vector_sync.Base.Int.{pos}
use vector_sync.Base.Text.{Bytes, codes}
use vector_sync.Base.Exec.{ok, pure, wrap, continue}
use vector_sync.Services.Interfaces.{Service, on_repo}
use vector_sync.Services.Collections.{or_empty}
use vector_sync.Services.Collections.Checks.{Refused}
use vector_sync.Base.Assoc.{lookup}
use vector_sync.Cache.{new_cache, get_info}
use vector_sync.Db.Collections.{find_by_id, read_collection, read_schema}
use vector_sync.Services.Documents.{
  get_collection_info, fetch_collection, check_vector, check_values,
}
use vector_sync.Services.Documents.Single.{IsFitting, IsFinite}
use vector_sync.Services.Documents.Listing.{
  outside_unit, normalize_weights, search_documents, hybrid_search_documents, check_count,
}
use vector_sync.Services.Documents.Pages.{StandsFor}
use vector_sync.Db.Statements.{Statement, Arg, search_statement, filter_loop}
use vector_sync.Db.Statements.Combined.{hybrid_statement}
use vector_sync.Db.Repository.{
  run_search, document_repository, search, hybrid_search, filters, scan_scored,
}
use vector_sync.Db.Repository.Queries.{IsQuery, IsHybridQuery}
use vector_sync.Handlers.Metadata.{from_filter, as_maps}
use vector_sync.Handlers.Searches.{
  SearchRequest, HybridRequest, to_result, handle_search, handle_hybrid,
}
use vector_sync.Handlers.Searches.Query.{handle_search-IsQuery}
use vector_sync.Examples.Requests.{test_float}
use vector_sync.Examples.Database.{World, test_codec, test_driver}
use vector_sync.Examples.Repositories.{protobuf, service, test_repository}

abbrev request : SearchRequest ℕ ℕ
request = record {
  collection_id = "c1";
  query_vector = 1 ∷ 2 ∷ [];
  top_k = pos 0;
  metadata_filter = ("k", 7) ∷ [];
  include_vector = true;
  min_threshold = 1;
}

abbrev looked_up : Service World
looked_up = (get_collection_info test_repository "c1" service).1

c1_named : request.collection_id ≢ ""
c1_named e = false≢true ((eq_iff "c1" "").1 e)

handle_search-IsQuery_example :
    Refused
      (handle_search protobuf test_float
        (document_repository test_float test_codec test_driver)
        test_repository
        request
        service)
      looked_up
    ⊎ ((k : ℕ) × StandsFor 10 1000 (pos 0) k
        × IsFitting test_float (pos 2) (1 ∷ 2 ∷ [])
        × (outside_unit test_float 1 ≡ false)
        × (statement : Statement (Arg ℕ Bytes)) × IsQuery test_float test_codec test_driver "c1"
            (1 ∷ 2 ∷ [])
            (pos k)
            (or_empty (from_filter protobuf request.metadata_filter))
            1
            statement
        × (handle_search protobuf test_float
              (document_repository test_float test_codec test_driver)
              test_repository
              request
              service
            ≡ continue
                (wrap "failed to search documents"
                  (on_repo (run_search test_float test_codec test_driver true statement))
                  looked_up)
                (λ results. pure (map (to_result protobuf) results))))
unfolding get_collection_info get_info lookup new_cache fetch_collection find_by_id read_collection
    read_schema
handle_search-IsQuery_example =
    handle_search-IsQuery protobuf test_float test_codec test_driver test_repository request service
      looked_up (pos 2) "cosine" c1_named refl refl

-- The search is not refused.
search_answers :
    (handle_search protobuf test_float
      (document_repository test_float test_codec test_driver)
      test_repository
      request
      service).0
    ≡ ok []
unfolding get_collection_info get_info lookup new_cache fetch_collection find_by_id read_collection
    read_schema handle_search search_documents check_vector check_values check_count search
    search_statement filter_loop filters from_filter as_maps run_search scan_scored
search_answers = refl

-- A hybrid search without a vector.
abbrev text_request : HybridRequest ℕ ℕ
text_request = record {
  collection_id = "c1";
  query_vector = [];
  query_text = codes "words";
  top_k = pos 3;
  metadata = [];
  vector_weight = 0;
  text_weight = 1;
  include_vector = false;
}

handle_hybrid-IsHybridQuery_example :
    let (a, b) = normalize_weights test_float 0 1 in
    let r =
      handle_hybrid protobuf test_float
        (document_repository test_float test_codec test_driver)
        test_repository
        text_request
        service in
    Refused r looked_up
    ⊎ ((k : ℕ) × StandsFor 10 1000 (pos 3) k
        × FitsIfGiven {F = ℕ} (pos 2) []
        × All (IsFinite test_float) []
        × (outside_unit test_float 0 ≡ false)
        × (outside_unit test_float 1 ≡ false)
        × (statement : Statement (Arg ℕ Bytes)) × IsHybridQuery test_float test_codec test_driver
            "c1"
            (codes "words")
            []
            (pos k)
            (or_empty (from_filter protobuf text_request.metadata))
            a
            b
            statement
        × (r
            ≡ continue
                (wrap "failed to perform hybrid search"
                  (on_repo (run_search test_float test_codec test_driver false statement))
                  looked_up)
                (λ results. pure (map (to_result protobuf) results))))
unfolding get_collection_info get_info lookup new_cache fetch_collection find_by_id read_collection
    read_schema
handle_hybrid-IsHybridQuery_example =
    handle_hybrid-IsHybridQuery protobuf test_float test_codec test_driver test_repository
      text_request service looked_up (pos 2) "cosine" c1_named refl refl

hybrid_answers :
    (handle_hybrid protobuf test_float
      (document_repository test_float test_codec test_driver)
      test_repository
      text_request
      service).0
    ≡ ok []
unfolding get_collection_info get_info lookup new_cache fetch_collection find_by_id read_collection
    read_schema handle_hybrid hybrid_search_documents check_values check_count hybrid_search
    hybrid_statement filter_loop filters from_filter run_search scan_scored
hybrid_answers = refl
