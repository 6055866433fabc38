-- ===== src/Services/Documents/Lookups.antt =====
-- What `getCollectionInfo` and its sibling leave behind in the cache.
use text.Mathlib.TextEquality.{eq_iff}
use vector_sync.Base.{
  ◌+◌, String, ◌≡◌, refl, sym, ap, ◌∙◌, inl, inr, true, false, none, some, arith, Option-cases,
}
use vector_sync.Base.Assoc.{lookup, lookup-insert}
use vector_sync.Base.Int.{ℤ, IsInt32, to_int32, to_int32_self}
use vector_sync.Base.Exec.{Result, ok, err}
use vector_sync.Models.{Collection}
use vector_sync.Cache.{CollectionInfo, CollectionCache, zero_info, get_info, insert_info}
use vector_sync.Services.Interfaces.{CollectionRepository, Service}
use vector_sync.Services.Documents.{
  collection_info, missing_error, fetch_collection, get_collection_info,
  get_collection_embedding_info,
}

pub get_info-hit :
    (id : String) (info : CollectionInfo) (c : CollectionCache)
    → lookup id c.cache ≡ some info
    → get_info id c ≡ ((info, true), record c { hits = c.hits + 1 })
unfolding get_info
get_info-hit id info c h = rw h refl

pub get_info-miss :
    (id : String) (c : CollectionCache)
    → lookup id c.cache ≡ none
    → get_info id c ≡ ((zero_info, false), record c { misses = c.misses + 1 })
unfolding get_info
get_info-miss id c h = rw h refl

-- The service behind a read that hits.
abbrev pub after_hit : {W : Type 0} → Service W → Service W
after_hit s = record s {
  collection_cache = record s.collection_cache { hits = s.collection_cache.hits + 1 };
}

-- The service behind a read that misses.
abbrev pub after_miss : {W : Type 0} → Service W → Service W
after_miss s = record s {
  collection_cache = record s.collection_cache { misses = s.collection_cache.misses + 1 };
}

abbrev pub dimension_and_metric : {V : Type 0} → Collection V → ℤ × String
dimension_and_metric c = (c.vector_dimension, c.distance_metric)

abbrev pub provider_and_model : {V : Type 0} → Collection V → String × String
provider_and_model c = (c.embedding_provider, c.embedding_model)

ok_parts :
    {S : Type 0} (a d : ℤ) (b m : String) (s t : S)
    → ◌≡◌ {A = Result (ℤ × String) × S} (ok (a, b), s) (ok (d, m), t)
    → (a ≡ d) × (b ≡ m) × (s ≡ t)
ok_parts a d b m s t h = ground arith

-- What is cached when a lookup has succeeded; `told` is what the sibling would have answered.
abbrev pub Cached :
    {W : Type 0} → String → ℤ → String → Result (String × String) → Service W → Type 0
Cached id d m told t =
    (info : CollectionInfo) × (lookup id t.collection_cache.cache ≡ some info)
    × (info.dimension ≡ d)
    × (info.distance_metric ≡ m)
    × (told ≡ ok (info.embedding_provider, info.embedding_model))

module _ {V W : Type 0} where
  -- A read of the collection, behind the repository's answer: `pick` is what the caller takes of it.
  abbrev pub answered :
      {A : Type 0}
      → (Collection V → A)
      → String
      → Service W
      → Result (Collection V) × W
      → Result A × Service W
  answered pick id s (ok c, w) = (
    ok (pick c),
    record s {
      world = w;
      collection_cache = insert_info id (collection_info c) s.collection_cache;
    },
  )
  answered pick id s (err e, w) = (
    err (missing_error "collection_id " id "failed to fetch collection" e),
    record s { world = w },
  )

  answered-Cached :
      (id : String) (d : ℤ) (m : String) (s t : Service W) (r : Result (Collection V) × W)
      → answered dimension_and_metric id s r ≡ (ok (d, m), t)
      → IsInt32 d
      → Cached id d m (answered provider_and_model id s r).0 t
  unfolding insert_info
  answered-Cached id d m s t (ok c, w) h i =
      let parts = ok_parts c.vector_dimension d c.distance_metric m _ t h in
      (
        collection_info c,
        ap (λ r. lookup id (r.1).collection_cache.cache) (sym h)
            ∙ lookup-insert id id (collection_info c) s.collection_cache.cache
            ∙ rw ((eq_iff id id).1 refl) refl,
        ap to_int32 (parts.0) ∙ to_int32_self d i,
        parts.1,
        refl,
      )
  answered-Cached id d m s t (err e, w) h i = ground arith

module _ {V W : Type 0} (collections : CollectionRepository V W) where
  pub get_collection_info-hit :
      (id : String) (info : CollectionInfo) (s : Service W)
      → lookup id s.collection_cache.cache ≡ some info
      → get_collection_info collections id s
        ≡ (ok (info.dimension, info.distance_metric), after_hit s)
  unfolding get_collection_info
  get_collection_info-hit id info s h = rw (get_info-hit id info s.collection_cache h) refl

  pub embedding_info-hit :
      (id : String) (info : CollectionInfo) (s : Service W)
      → lookup id s.collection_cache.cache ≡ some info
      → get_collection_embedding_info collections id s
        ≡ (ok (info.embedding_provider, info.embedding_model), after_hit s)
  unfolding get_collection_embedding_info
  embedding_info-hit id info s h = rw (get_info-hit id info s.collection_cache h) refl

  pub get_collection_info-miss :
      (id : String) (s : Service W)
      → lookup id s.collection_cache.cache ≡ none
      → get_collection_info collections id s
        ≡ answered dimension_and_metric id (after_miss s) (collections.list_by_id id s.world)
  unfolding get_collection_info fetch_collection
  get_collection_info-miss id s h = rw (get_info-miss id s.collection_cache h) (ground arith)

  pub embedding_info-miss :
      (id : String) (s : Service W)
      → lookup id s.collection_cache.cache ≡ none
      → get_collection_embedding_info collections id s
        ≡ answered provider_and_model id (after_miss s) (collections.list_by_id id s.world)
  unfolding get_collection_embedding_info fetch_collection
  embedding_info-miss id s h = rw (get_info-miss id s.collection_cache h) (ground arith)

  pub get_collection_info-Cached :
      (id : String) (d : ℤ) (m : String) (s t : Service W)
      → get_collection_info collections id s ≡ (ok (d, m), t)
      → IsInt32 d
      → Cached id d m (get_collection_embedding_info collections id s).0 t
  get_collection_info-Cached id d m s t h i =
      elim (Option-cases (lookup id s.collection_cache.cache)) [
        | inl e ↦ rw (embedding_info-miss id s e) (
            answered-Cached id d m (after_miss s) t (collections.list_by_id id s.world)
              (sym (get_collection_info-miss id s e) ∙ h) i)
        | inr (info, e) ↦ held info e (sym (get_collection_info-hit id info s e) ∙ h)
      ]
    where
      held :
          (info : CollectionInfo)
          → lookup id s.collection_cache.cache ≡ some info
          → ◌≡◌ {A = Result (ℤ × String) × Service W}
              (ok (info.dimension, info.distance_metric), after_hit s)
              (ok (d, m), t)
          → Cached id d m (get_collection_embedding_info collections id s).0 t
      held info e q = (
        info,
        ap (λ r. lookup id (r.1).collection_cache.cache) (sym q) ∙ e,
        (ok_parts info.dimension d info.distance_metric m (after_hit s) t q).0,
        (ok_parts info.dimension d info.distance_metric m (after_hit s) t q).1,
        ap (λ r. r.0) (embedding_info-hit id info s e),
      )

  -- Once the dimension and the metric of a collection have been found (the dimension an int32), asking
  -- again gives the same without a call of the repository: only a hit is counted. So does asking for
  -- the provider and the model, which are those that would have been found in its place.
  pub get_collection_info-again :
      (id : String) (d : ℤ) (m : String) (s t : Service W)
      → get_collection_info collections id s ≡ (ok (d, m), t)
      → IsInt32 d
      → (get_collection_info collections id t ≡ (ok (d, m), after_hit t))
        × (get_collection_embedding_info collections id t
            ≡ ((get_collection_embedding_info collections id s).0, after_hit t))
  get_collection_info-again id d m s t h i =
      let (info, e, x, y, z) = get_collection_info-Cached id d m s t h i in
      (
        get_collection_info-hit id info t e ∙ rw (x, y) refl,
        embedding_info-hit id info t e ∙ rw z refl,
      )
