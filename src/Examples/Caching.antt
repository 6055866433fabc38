-- ===== src/Examples/Caching.antt =====
-- Runs of the collection cache.
use vector_sync.Base.{◌≡◌, List, [], ◌∷◌, none}
use vector_sync.Base.Int.{pos}
use vector_sync.Base.Exec.{ok, err, new_error}
use vector_sync.Cache.{CollectionInfo, new_cache, WarmRow, get_info}
use vector_sync.Cache.Laws.{
  Op, inserts, deletes, reads, warms, run, reading, last_written, get_info-run,
}

abbrev info : CollectionInfo
info = record {
  dimension = pos 3;
  distance_metric = "cosine";
  embedding_provider = "";
  embedding_model = "";
}

abbrev row : WarmRow
row = record { id = "a"; dim = pos 3; metric = "cosine"; provider = none; model = none }

abbrev calls : List Op
calls =
    inserts "a" info
    ∷ reads "a"
    ∷ deletes "a"
    ∷ inserts "b" info
    ∷ warms (ok (ok row ∷ err (new_error "scan") ∷ [], none))
    ∷ reads "a"
    ∷ []

get_info-run_example :
    (get_info "a" (run new_cache calls)).0 ≡ reading (last_written "a" none calls)
get_info-run_example = get_info-run calls "a"
