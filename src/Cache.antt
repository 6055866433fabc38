-- ===== src/Cache.antt =====
-- internal/db/collection_cache.go. Each method holds the lock throughout, so it is one step
-- (`WarmFromDB` from behind its query on); the counters are the two labels of `metrics.CacheOps`, which
-- `GetInfo` counts up.
pub mod Entries
pub mod Laws
use text.Mathlib.Text.{◌==◌}
use vector_sync.Base.{
  ℕ, ◌+◌, String, Bool, true, false, List, [], ◌∷◌, Option, none, some, if◌then◌else◌,
}
use vector_sync.Base.Int.{ℤ, pos}
use vector_sync.Base.Assoc.{lookup, insert, erase}
use vector_sync.Base.Exec.{Error, Result, ok, err}

pub record CollectionInfo : Type 0 where
  pub dimension : ℤ
  pub distance_metric : String
  pub embedding_provider : String
  pub embedding_model : String

pub record CollectionCache : Type 0 where
  pub cache : List (String × CollectionInfo)
  pub hits : ℕ
  pub misses : ℕ

-- `NewCollectionCache`
unfoldable pub new_cache : CollectionCache
new_cache = record { cache = []; hits = 0; misses = 0 }

abbrev is_some {ℓ} : {A : Type ℓ} → Option A → Bool
is_some none = false
is_some (some a) = true

-- The zero value, which a missing key reads as.
abbrev pub zero_info : CollectionInfo
zero_info = record {
  dimension = pos 0;
  distance_metric = "";
  embedding_provider = "";
  embedding_model = "";
}

abbrev or_zero : Option CollectionInfo → CollectionInfo
or_zero none = zero_info
or_zero (some info) = info

-- `CheckIdOrName`
unfoldable pub check_id_or_name : CollectionCache → String → String → Bool
check_id_or_name c collection_id name =
    is_some (lookup (if name == "" then collection_id else name) c.cache)

-- `Insert`
unfoldable pub insert_info : String → CollectionInfo → CollectionCache → CollectionCache
insert_info collection_id info c = record c { cache = insert collection_id info c.cache }

-- `GetDimension`
unfoldable pub get_dimension : CollectionCache → String → ℤ × Bool
get_dimension c collection_id =
    let info = lookup collection_id c.cache in ((or_zero info).dimension, is_some info)

-- `GetDistanceMetric`
unfoldable pub get_distance_metric : CollectionCache → String → String × Bool
get_distance_metric c collection_id =
    let info = lookup collection_id c.cache in ((or_zero info).distance_metric, is_some info)

-- The count that `GetInfo` makes.
count_op : Bool → CollectionCache → CollectionCache
count_op true c = record c { hits = c.hits + 1 }
count_op false c = record c { misses = c.misses + 1 }

-- `GetInfo`
unfoldable pub get_info : String → CollectionCache → (CollectionInfo × Bool) × CollectionCache
unfolding count_op
get_info collection_id c =
    let info = lookup collection_id c.cache in
    ((or_zero info, is_some info), count_op (is_some info) c)

-- `Delete`
unfoldable pub delete_info : String → CollectionCache → CollectionCache
delete_info collection_id c = record c { cache = erase collection_id c.cache }

-- A row of the query of `WarmFromDB`; the last two columns may be NULL.
pub record WarmRow : Type 0 where
  pub id : String
  pub dim : ℤ
  pub metric : String
  pub provider : Option String
  pub model : Option String

-- `if ep.Valid { epStr = ep.String }`
abbrev pub or_blank : Option String → String
or_blank none = ""
or_blank (some s) = s

abbrev pub row_info : WarmRow → CollectionInfo
row_info r = record {
  dimension = r.dim;
  distance_metric = r.metric;
  embedding_provider = or_blank r.provider;
  embedding_model = or_blank r.model;
}

-- The loop over the rows. A scan that fails ends it, and what was cached by then stays; behind the
-- last row `rows.Err()` is returned.
unfoldable pub warm_rows :
    List (Result WarmRow) → Option Error → CollectionCache → Option Error × CollectionCache
unfolding insert_info
warm_rows [] last c = (last, c)
warm_rows (err e ∷ rows) last c = (some e, c)
warm_rows (ok r ∷ rows) last c = warm_rows rows last (insert_info r.id (row_info r) c)

-- `WarmFromDB`, of what the query returns: an error, or the rows and the error behind them.
unfoldable pub warm_from_db :
    Result (List (Result WarmRow) × Option Error) → CollectionCache → Option Error × CollectionCache
unfolding warm_rows
warm_from_db (err e) c = (some e, c)
warm_from_db (ok (rows, last)) c = warm_rows rows last c
