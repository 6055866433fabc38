-- ===== src/Cache/Laws.antt =====
-- The cache against the history of its calls.
use text.Mathlib.Text.{◌==◌}
use vector_sync.Base.{
  ℕ, ◌+◌, String, ◌≡◌, refl, ap, ◌∙◌, Bool, true, false, List, [], ◌∷◌, Option, none, some, arith,
  if◌then◌else◌,
}
use vector_sync.Base.Assoc.{lookup, lookup-insert, lookup-erase}
use vector_sync.Cache.{
  CollectionInfo, CollectionCache, zero_info, new_cache, insert_info, get_info, get_dimension,
  get_distance_metric, delete_info, check_id_or_name, WarmRow, row_info, warm_rows, warm_from_db,
}
use vector_sync.Base.Exec.{Error, Result, ok, err}

-- The calls that change the cache; `WarmFromDB` with what its query returns.
pub data Op : Type 0 where
  inserts : String → CollectionInfo → Op
  deletes : String → Op
  reads : String → Op
  warms : Result (List (Result WarmRow) × Option Error) → Op

unfoldable pub step : CollectionCache → Op → CollectionCache
unfolding insert_info delete_info get_info warm_from_db
step c (inserts id info) = insert_info id info c
step c (deletes id) = delete_info id c
step c (reads id) = (get_info id c).1
step c (warms r) = (warm_from_db r c).1

unfoldable pub run : CollectionCache → List Op → CollectionCache
unfolding step
run c [] = c
run c (op ∷ ops) = run (step c op) ops

-- The last row with the id before a scan that fails, if there is one.
unfoldable pub last_scanned :
    String → Option CollectionInfo → List (Result WarmRow) → Option CollectionInfo
last_scanned id found [] = found
last_scanned id found (err e ∷ rows) = found
last_scanned id found (ok r ∷ rows) =
    last_scanned id (if r.id == id then some (row_info r) else found) rows

abbrev pub warmed :
    String
    → Option CollectionInfo
    → Result (List (Result WarmRow) × Option Error)
    → Option CollectionInfo
warmed id found (err e) = found
warmed id found (ok (rows, last)) = last_scanned id found rows

-- What the history says of an id: what was last inserted or warmed, unless a deletion follows it.
unfoldable pub last_written : String → Option CollectionInfo → List Op → Option CollectionInfo
last_written id found [] = found
last_written id found (inserts j info ∷ ops) =
    last_written id (if j == id then some info else found) ops
last_written id found (deletes j ∷ ops) = last_written id (if j == id then none else found) ops
last_written id found (reads j ∷ ops) = last_written id found ops
last_written id found (warms r ∷ ops) = last_written id (warmed id found r) ops

abbrev pub reading : Option CollectionInfo → CollectionInfo × Bool
reading none = (zero_info, false)
reading (some info) = (info, true)

-- How many reads the history has.
unfoldable pub count_reads : List Op → ℕ
count_reads [] = 0
count_reads (inserts j info ∷ ops) = count_reads ops
count_reads (deletes j ∷ ops) = count_reads ops
count_reads (reads j ∷ ops) = count_reads ops + 1
count_reads (warms r ∷ ops) = count_reads ops

get_info-reading :
    (id : String) (c : CollectionCache) → (get_info id c).0 ≡ reading (lookup id c.cache)
unfolding get_info
get_info-reading id c = ground arith

cache-reads : (id : String) (c : CollectionCache) → (step c (reads id)).cache ≡ c.cache
unfolding step
cache-reads id c = ground arith

lookup-warm_rows :
    (id : String) (rows : List (Result WarmRow)) (last : Option Error) (c : CollectionCache)
    → lookup id (warm_rows rows last c).1.cache ≡ last_scanned id (lookup id c.cache) rows
unfolding warm_rows last_scanned
lookup-warm_rows id [] last c = refl
lookup-warm_rows id (err e ∷ rows) last c = refl
lookup-warm_rows id (ok r ∷ rows) last c =
    rw (← lookup-insert r.id id (row_info r) c.cache)
      (lookup-warm_rows id rows last (insert_info r.id (row_info r) c))

lookup-warm_from_db :
    (id : String) (r : Result (List (Result WarmRow) × Option Error)) (c : CollectionCache)
    → lookup id (warm_from_db r c).1.cache ≡ warmed id (lookup id c.cache) r
unfolding warm_from_db
lookup-warm_from_db id (err e) c = refl
lookup-warm_from_db id (ok (rows, last)) c = lookup-warm_rows id rows last c

warm_rows-counts :
    (rows : List (Result WarmRow)) (last : Option Error) (c : CollectionCache)
    → let c' = (warm_rows rows last c).1 in (c'.hits ≡ c.hits) × (c'.misses ≡ c.misses)
unfolding warm_rows
warm_rows-counts [] last c = (refl, refl)
warm_rows-counts (err e ∷ rows) last c = (refl, refl)
warm_rows-counts (ok r ∷ rows) last c = warm_rows-counts rows last (insert_info r.id (row_info r) c)

warm_from_db-counts :
    (r : Result (List (Result WarmRow) × Option Error)) (c : CollectionCache)
    → let c' = (warm_from_db r c).1 in (c'.hits ≡ c.hits) × (c'.misses ≡ c.misses)
unfolding warm_from_db
warm_from_db-counts (err e) c = (refl, refl)
warm_from_db-counts (ok (rows, last)) c = warm_rows-counts rows last c

lookup-run :
    (id : String) (ops : List Op) (c : CollectionCache)
    → lookup id (run c ops).cache ≡ last_written id (lookup id c.cache) ops
unfolding run last_written
lookup-run id [] c = refl
lookup-run id (inserts j info ∷ ops) c =
    rw (← lookup-insert j id info c.cache) (lookup-run id ops (insert_info j info c))
lookup-run id (deletes j ∷ ops) c =
    rw (← lookup-erase j id c.cache) (lookup-run id ops (delete_info j c))
lookup-run id (reads j ∷ ops) c =
    lookup-run id ops (step c (reads j))
    ∙ ap (λ m. last_written id (lookup id m) ops) (cache-reads j c)
lookup-run id (warms r ∷ ops) c =
    lookup-run id ops (step c (warms r))
    ∙ ap (λ found. last_written id found ops) (lookup-warm_from_db id r c)

-- After any calls of `Insert`, `Delete`, `GetInfo` and `WarmFromDB`, whatever the queries return,
-- `GetInfo` returns what was last cached under the id, if no deletion followed, and otherwise the
-- zero value and false; a warming caches the rows before the first one that does not scan.
pub get_info-run :
    (ops : List Op) (id : String)
    → (get_info id (run new_cache ops)).0 ≡ reading (last_written id none ops)
unfolding new_cache
get_info-run ops id =
    rw (get_info-reading id (run new_cache ops), lookup-run id ops new_cache)
      (unfold lookup in refl)

-- The two narrower getters agree with `GetInfo`.
pub getters-get_info :
    (c : CollectionCache) (id : String)
    → let (info, found) = (get_info id c).0 in
      (get_dimension c id ≡ (info.dimension, found))
      × (get_distance_metric c id ≡ (info.distance_metric, found))
      × (check_id_or_name c id "" ≡ found)
unfolding get_info get_dimension get_distance_metric check_id_or_name
getters-get_info c id = (refl, refl, refl)

total-run :
    (ops : List Op) (c : CollectionCache)
    → (run c ops).hits + (run c ops).misses ≡ c.hits + c.misses + count_reads ops
unfolding run count_reads
total-run [] c = omega arith
total-run (inserts j info ∷ ops) c = total-run ops (insert_info j info c)
total-run (deletes j ∷ ops) c = total-run ops (delete_info j c)
total-run (warms r ∷ ops) c =
    let (h, m) = warm_from_db-counts r c in omega (arith, total-run ops (step c (warms r)), h, m)
total-run (reads j ∷ ops) c = omega (arith, total-run ops (step c (reads j)), count-reads j c)
  where
    count-reads :
        (j : String) (c : CollectionCache)
        → (step c (reads j)).hits + (step c (reads j)).misses ≡ c.hits + c.misses + 1
    count-reads j c = unfold step in ground arith

-- Every call of `GetInfo` is counted once, as a hit or as a miss, and nothing else is counted.
pub hits-misses-run :
    (ops : List Op) → (run new_cache ops).hits + (run new_cache ops).misses ≡ count_reads ops
unfolding new_cache
hits-misses-run ops = omega (arith, total-run ops new_cache)
