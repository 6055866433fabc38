-- ===== src/Services/Documents/Coherent.antt =====
-- The cache of the collections against the table.
pub mod Requests
pub mod Clients
pub mod Ingestion
use vector_sync.Base.{
  ◌+◌, String, ◌≡◌, refl, sym, ap, ◌∙◌, inl, inr, Bool, true, false, List, [], ◌∷◌, Option, none,
  some, arith, Option-cases, some-injective, if◌then◌else◌, Bool-cases, length, is_empty,
}
use text.Mathlib.Text.{◌==◌}
use text.Mathlib.TextEquality.{eq_iff}
use vector_sync.Base.Assoc.{lookup, insert, lookup-insert}
use vector_sync.Base.Int.{ℤ, to_int32}
use vector_sync.Base.Text.{Bytes}
use vector_sync.Base.Keeps.{
  Keeps, lift-Keeps, refuse_if-Keeps, wrap-Keeps, continue-keeps, then-Keeps, checked-Keeps,
}
use vector_sync.Base.Exec.{Error, Result, ok, err, Exec, pure, wrap, continue, ◌>>=◌, ◌>>◌}
use vector_sync.Models.{Collection}
use vector_sync.Cache.{CollectionInfo, insert_info}
use vector_sync.Cache.Entries.{get_info-cache}
use vector_sync.Services.Interfaces.{CollectionRepository, Service, on_repo, read_cache, fill_cache}
use vector_sync.Services.Documents.{
  or_missing, collection_info, fetch_collection, info_or_fetch, get_collection_info,
  embedding_or_fetch, get_collection_embedding_info,
}

module _ (id name : String) (info : CollectionInfo) (entries : List (String × CollectionInfo)) where
  lookup-insert-same : (id == name) ≡ true → lookup name (insert id info entries) ≡ some info
  lookup-insert-same b = lookup-insert id name info entries ∙ rw b refl

  lookup-insert-other :
      (id == name) ≡ false → lookup name (insert id info entries) ≡ lookup name entries
  lookup-insert-other b = lookup-insert id name info entries ∙ rw b refl

-- What the table of the database holds of each collection, as the cache would hold it. The program
-- sees it only through the answers of the repositories, which may fail.
abbrev pub Table : Type 0 → Type 0
Table W = String → W → Option CollectionInfo

module _ {W : Type 0} (table : Table W) where
  -- Every entry of the cache is what the table holds.
  abbrev pub IsCoherent : Service W → Type 0
  IsCoherent s =
      (id : String) (info : CollectionInfo)
      → lookup id s.collection_cache.cache ≡ some info
      → table id s.world ≡ some info

  -- A call behind which the table still holds what it held of its collections.
  abbrev pub IsQuiet : {A : Type 0} → Exec W A → Type 0
  IsQuiet m =
      (w : W) (id : String) (info : CollectionInfo)
      → table id w ≡ some info
      → table id ((m w).1) ≡ some info

  pub on_repo-IsCoherent : {A : Type 0} (m : Exec W A) → IsQuiet m → Keeps IsCoherent (on_repo m)
  on_repo-IsCoherent m q = record { kept = λ s h id info e. q s.world id info (h id info e) }

  read_cache-IsCoherent : (id : String) → Keeps IsCoherent (read_cache id)
  read_cache-IsCoherent id = record {
    kept = λ s h name info e.
        h name info (ap (lookup name) (sym (get_info-cache id s.collection_cache)) ∙ e);
  }

  pub or_missing-IsCoherent :
      {A : Type 0} (field id text : String) (r : Result A × Service W)
      → IsCoherent (r.1)
      → IsCoherent ((or_missing field id text r).1)
  or_missing-IsCoherent field id text (ok a, s) h = h
  or_missing-IsCoherent field id text (err e, s) h = h

  -- The cache filled with what the table says.
  fill_cache-IsCoherent :
      (id : String) (info : CollectionInfo) (s : Service W)
      → table id s.world ≡ some info
      → IsCoherent s
      → IsCoherent ((fill_cache id info s).1)
  unfolding insert_info
  fill_cache-IsCoherent id info s t h name found e = elim (Bool-cases (id == name)) [
    | inl b ↦
        ap (λ n. table n s.world) (sym ((eq_iff id name).0 b))
        ∙ t
        ∙ ap some (
            some-injective info found
              (sym (lookup-insert-same id name info s.collection_cache.cache b) ∙ e))
    | inr b ↦ h name found (sym (lookup-insert-other id name info s.collection_cache.cache b) ∙ e)
  ]

  -- A collection that the repository answers with is what the table holds.
  abbrev pub IsTold : {V : Type 0} → CollectionRepository V W → Type 0
  IsTold {V} collections =
      (id : String) (w w' : W) (c : Collection V)
      → collections.list_by_id id w ≡ (ok c, w')
      → table id w' ≡ some (collection_info c)

  module _ {V : Type 0} (collections : CollectionRepository V W) (told : IsTold collections)
      (quiet : (id : String) → IsQuiet (collections.list_by_id id)) where
    fetch_collection-IsCoherent : (id : String) → Keeps IsCoherent (fetch_collection collections id)
    unfolding fetch_collection
    fetch_collection-IsCoherent id = record {
      kept = λ s h.
          answer s (collections.list_by_id id s.world) refl
            ((on_repo-IsCoherent (collections.list_by_id id) (quiet id)).kept s h);
    }
      where
        answer :
            (s : Service W) (r : Result (Collection V) × W)
            → collections.list_by_id id s.world ≡ r
            → IsCoherent (record s { world = (collections.list_by_id id s.world).1 })
            → IsCoherent (
                (continue
                  (or_missing "collection_id " id "failed to fetch collection"
                    (r.0, record s { world = r.1 }))
                  (λ c. fill_cache id (collection_info c) >> pure c)).1)
        answer s (ok c, w) e h =
            fill_cache-IsCoherent id (collection_info c) (record s { world = w })
              (told id s.world w c e)
              (λ name info k. ap (λ r. table name (r.1)) (sym e) ∙ h name info k)
        answer s (err x, w) e h = λ name info k. ap (λ r. table name (r.1)) (sym e) ∙ h name info k

    pub get_collection_info-IsCoherent :
        (id : String) → Keeps IsCoherent (get_collection_info collections id)
    unfolding get_collection_info
    get_collection_info-IsCoherent id =
        then-Keeps (read_cache id) (info_or_fetch collections id) (read_cache-IsCoherent id) found
      where
        found : (x : CollectionInfo × Bool) → Keeps IsCoherent (info_or_fetch collections id x)
        found (info, true) = lift-Keeps (ok (info.dimension, info.distance_metric))
        found (info, false) =
            then-Keeps (fetch_collection collections id)
              (λ c. pure (c.vector_dimension, c.distance_metric)) (fetch_collection-IsCoherent id)
              (λ c. lift-Keeps (ok (c.vector_dimension, c.distance_metric)))

    pub get_collection_embedding_info-IsCoherent :
        (id : String) → Keeps IsCoherent (get_collection_embedding_info collections id)
    unfolding get_collection_embedding_info
    get_collection_embedding_info-IsCoherent id =
        then-Keeps (read_cache id) (embedding_or_fetch collections id) (read_cache-IsCoherent id)
          found
      where
        found : (x : CollectionInfo × Bool) → Keeps IsCoherent (embedding_or_fetch collections id x)
        found (info, true) = lift-Keeps (ok (info.embedding_provider, info.embedding_model))
        found (info, false) =
            then-Keeps (fetch_collection collections id)
              (λ c. pure (c.embedding_provider, c.embedding_model)) (fetch_collection-IsCoherent id)
              (λ c. lift-Keeps (ok (c.embedding_provider, c.embedding_model)))
