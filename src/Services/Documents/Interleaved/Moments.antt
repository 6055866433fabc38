-- ===== src/Services/Documents/Interleaved/Moments.antt =====
-- What was so at one of the moments of the database.
use vector_sync.Base.{ℕ, suc, String, ◌≡◌, refl, ◌⊎◌, List, ◌∷◌, Option, some, get_elem?}
use vector_sync.Base.Exec.{Error, Result, ok, err}
use vector_sync.Models.{Collection}
use vector_sync.Cache.{CollectionInfo, CollectionCache, WarmRow, row_info}
use vector_sync.Cache.Entries.{IsEverywhere}
use vector_sync.Services.Interfaces.{CollectionRepository}
use vector_sync.Services.Documents.{missing_error, collection_info}
use vector_sync.Services.Documents.Interleaved.{
  Wanted, Answer, of_info, of_collection, Pc, asking, missed, fetched, answered, Warming, waiting,
  loading, finished, Rows, after_query,
}

module _ {V W : Type 0} (collections : CollectionRepository V W) where
  -- At one of the moments the repository answers `r` for the collection.
  abbrev pub Said : List W → String → Result (Collection V) → Type 0
  Said moments id r =
      (j : ℕ) × (w : W) × (get_elem? moments j ≡ some w) × ((collections.list_by_id id w).0 ≡ r)

  pub Said-later :
      (w : W) (moments : List W) (id : String) (r : Result (Collection V))
      → Said moments id r
      → Said (w ∷ moments) id r
  Said-later w moments id r (j, v, e, q) = (suc j, v, e, q)

  -- The entry is what the table said of the collection at one of the moments.
  abbrev pub EntrySaid : List W → String → CollectionInfo → Type 0
  EntrySaid moments id info =
      (c : Collection V) × Said moments id (ok c) × (info ≡ collection_info c)

  -- An answer is of a collection that was read, or of what is cached of it; an error is the repository's.
  abbrev pub AnswerSaid : List W → Wanted → String → Result Answer → Type 0
  AnswerSaid moments k id (ok a) =
      (c : Collection V) × Said moments id (ok c)
      × ((a ≡ of_collection k c) ⊎ (a ≡ of_info k (collection_info c)))
  AnswerSaid moments k id (err x) =
      (e : Error) × Said moments id (err e)
      × (x ≡ missing_error "collection_id " id "failed to fetch collection" e)

  abbrev pub PcSaid : List W → Wanted → String → Pc V → Type 0
  PcSaid moments k id asking = Unit
  PcSaid moments k id missed = Unit
  PcSaid moments k id (fetched c) = Said moments id (ok c)
  PcSaid moments k id (answered r) = AnswerSaid moments k id r

  pub PcSaid-later :
      (w : W) (moments : List W) (k : Wanted) (id : String) (pc : Pc V)
      → PcSaid moments k id pc
      → PcSaid (w ∷ moments) k id pc
  PcSaid-later w moments k id asking h = tt
  PcSaid-later w moments k id missed h = tt
  PcSaid-later w moments k id (fetched c) h = Said-later w moments id (ok c) h
  PcSaid-later w moments k id (answered (ok a)) (c, h, e) = (c, Said-later w moments id (ok c) h, e)
  PcSaid-later w moments k id (answered (err x)) (y, h, e) =
      (y, Said-later w moments id (err y) h, e)

  pub EntrySaid-later :
      (w : W) (moments : List W) (c : CollectionCache)
      → IsEverywhere (EntrySaid moments) c
      → IsEverywhere (EntrySaid (w ∷ moments)) c
  EntrySaid-later w moments c h id info e =
      let (x, said, q) = h id info e in (x, Said-later w moments id (ok x) said, q)

  -- The rows of the query are what the table says when it is run, as the repository reads it.
  pub record TellsTable (query : W → Rows × W) : Type 0 where
    pub told :
        (w : W) (rows : List (Result WarmRow)) (last : Option Error) (j : ℕ) (r : WarmRow)
        → (query w).0 ≡ ok (rows, last)
        → get_elem? rows j ≡ some (ok r)
        → (c : Collection V) × ((collections.list_by_id r.id w).0 ≡ ok c)
          × (row_info r ≡ collection_info c)

  abbrev pub WarmingSaid : List W → Warming → Type 0
  WarmingSaid moments waiting = Unit
  WarmingSaid moments (loading answer) =
      (rows : List (Result WarmRow)) (last : Option Error) (j : ℕ) (r : WarmRow)
      → answer ≡ ok (rows, last)
      → get_elem? rows j ≡ some (ok r)
      → EntrySaid moments r.id (row_info r)
  WarmingSaid moments (finished e) = Unit

  pub WarmingSaid-later :
      (w : W) (moments : List W) (x : Warming) → WarmingSaid moments x → WarmingSaid (w ∷ moments) x
  WarmingSaid-later w moments waiting h = tt
  WarmingSaid-later w moments (loading answer) h = λ rows last j r e q.
      let (c, said, t) = h rows last j r e q in (c, Said-later w moments r.id (ok c) said, t)
  WarmingSaid-later w moments (finished e) h = tt

  pub after_query-Said :
      (moments : List W) (k : Wanted) (id : String) (r : Result (Collection V))
      → Said moments id r
      → PcSaid moments k id (after_query id r)
  after_query-Said moments k id (ok c) h = h
  after_query-Said moments k id (err e) h = (e, h, refl)
