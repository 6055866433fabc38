-- ===== src/Examples/Monitoring.antt =====
-- Two RPCs that run at once, and the metrics of an ingestion.
use vector_sync.Base.{◌+◌, [], ◌∷◌}
use vector_sync.Metrics.Inflight.{Calls, before_handler, behind_handler, no_calls}

-- A search and a listing begin; the search, which began first, returns.
abbrev after_search : Calls
after_search = record {
  recorded =
      behind_handler "Search" "OK" 3 5
        (before_handler "List" (before_handler "Search" no_calls.recorded));
  running = ("List", 4) ∷ [];
  begun = no_calls.begun + 1 + 1;
}
