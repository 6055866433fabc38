-- ===== src/Services/Documents/Interleaved.antt =====
-- internal/services/document_service.go and cmd/vector-sync/main.go: lookups of collections by any number
-- of requests at once, beside the goroutine that warms the cache. The cache is locked only within
-- one of its methods, and no lock is held over a call of the database, so others may come in
-- between two calls. The moments of the database are kept, the newest first.
pub mod Moments
pub mod Told
use vector_sync.Base.{
  ℕ, zero, suc, String, Bool, true, false, List, [], ◌∷◌, Option, if◌then◌else◌, ◌==◌,
}
use vector_sync.Base.Int.{ℤ}
use vector_sync.Base.Exec.{Error, Result, ok, err}
use vector_sync.Models.{Collection}
use vector_sync.Cache.{
  CollectionInfo, CollectionCache, WarmRow, new_cache, get_info, insert_info, warm_from_db,
}
use vector_sync.Services.Interfaces.{CollectionRepository, Service}
use vector_sync.Services.Documents.{missing_error, collection_info}

-- Which of the two lookups a request makes: `getCollectionInfo` or `getCollectionEmbeddingInfo`.
pub data Wanted : Type 0 where
  sizes providers : Wanted

pub data Answer : Type 0 where
  size : ℤ → String → Answer
  provider : String → String → Answer

abbrev pub of_info : Wanted → CollectionInfo → Answer
of_info sizes info = size info.dimension info.distance_metric
of_info providers info = provider info.embedding_provider info.embedding_model

abbrev pub of_collection : {V : Type 0} → Wanted → Collection V → Answer
of_collection sizes c = size c.vector_dimension c.distance_metric
of_collection providers c = provider c.embedding_provider c.embedding_model

-- Where a lookup stands: before `GetInfo`, before `ListById`, before `Insert`, or behind its return.
pub data Pc (V : Type 0) : Type 0 where
  asking missed : Pc V
  fetched : Collection V → Pc V
  answered : Result Answer → Pc V

-- What the query of `WarmFromDB` gives: an error, or the rows and the error behind them.
abbrev pub Rows : Type 0
Rows = Result (List (Result WarmRow) × Option Error)

-- Where the goroutine of the start stands: before its query, before the loop over what the query gave,
-- which holds the lock to its end, or behind it.
pub data Warming : Type 0 where
  waiting : Warming
  loading : Rows → Warming
  finished : Option Error → Warming

-- `if dim, metric, _, _, ok := s.collectionCache.GetInfo(id); ok { … }`
abbrev after_read : {V : Type 0} → Wanted → CollectionInfo × Bool → Pc V
after_read k (info, true) = answered (ok (of_info k info))
after_read k (info, false) = missed

abbrev pub after_query : {V : Type 0} → String → Result (Collection V) → Pc V
after_query id (ok c) = fetched c
after_query id (err e) =
    answered (err (missing_error "collection_id " id "failed to fetch collection" e))

module _ {V W : Type 0} (collections : CollectionRepository V W) where
  -- The next call of a lookup of `id`.
  unfoldable pub advance : Wanted → String → Pc V → Service W → Pc V × Service W
  advance k id asking s =
      let (found, c) = get_info id s.collection_cache in
      (after_read k found, record s { collection_cache = c })
  advance k id missed s =
      let (r, w) = collections.list_by_id id s.world in (after_query id r, record s { world = w })
  advance k id (fetched c) s = (
    answered (ok (of_collection k c)),
    record s { collection_cache = insert_info id (collection_info c) s.collection_cache },
  )
  advance k id (answered r) s = (answered r, s)

-- The next call of `WarmFromDB`, over the query, which is a parameter.
unfoldable pub warm_up : {W : Type 0} → (W → Rows × W) → Warming → Service W → Warming × Service W
warm_up query waiting s = let (rows, w) = query s.world in (loading rows, record s { world = w })
warm_up query (loading rows) s =
    let (e, c) = warm_from_db rows s.collection_cache in
    (finished e, record s { collection_cache = c })
warm_up query (finished e) s = (finished e, s)

pub record System (V W : Type 0) : Type 0 where
  pub service : Service W
  pub lookups : ℕ → Pc V
  pub warming : Warming
  pub moments : List W

abbrev pub update {ℓ} : {A : Type ℓ} → (ℕ → A) → ℕ → A → ℕ → A
update f i a j = if i == j then a else f j

module _ {V W : Type 0} (collections : CollectionRepository V W) (query : W → Rows × W)
    (wanted : ℕ → Wanted × String) where
  -- The lookup `i`, of what `wanted i` says, makes its next call.
  unfoldable pub turn : ℕ → System V W → System V W
  unfolding advance
  turn i s =
      let (pc, t) = advance collections (wanted i).0 (wanted i).1 (s.lookups i) s.service in
      record s { service = t; lookups = update s.lookups i pc; moments = t.world ∷ s.moments }

  unfoldable pub warm_turn : System V W → System V W
  unfolding warm_up
  warm_turn s =
      let (warming, t) = warm_up query s.warming s.service in
      record s { service = t; warming = warming; moments = t.world ∷ s.moments }

  -- One call of one of them, or the database changed by anything else, in any way.
  pub data Step (s : System V W) : System V W → Type 0 where
    lookup_turn : (i : ℕ) → Step s (turn i s)
    warming_turn : Step s (warm_turn s)
    changed :
        (w : W)
        → Step s (record s { service = record s.service { world = w }; moments = w ∷ s.moments })

  -- The start of the program: the cache is empty, and every request has its lookup before it.
  abbrev pub init : W → System V W
  init w = record {
    service = record { collection_cache = new_cache; world = w };
    lookups = λ i. asking;
    warming = waiting;
    moments = w ∷ [];
  }

  pub data Reach (w : W) : System V W → Type 0 where
    start : Reach w (init w)
    later : {s t : System V W} → Reach w s → Step s t → Reach w t
