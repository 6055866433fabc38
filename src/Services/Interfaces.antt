-- ===== src/Services/Interfaces.antt =====
-- internal/services/interfaces.go, and the state of a service: the collection cache and the world
-- that the repositories act on (the database). What a repository does is a parameter, as are
-- float32 and its operations.
use vector_sync.Base.{ℕ, String, Bool, List}
use vector_sync.Base.Int.{ℤ}
use vector_sync.Base.Text.{Bytes}
use vector_sync.Base.Exec.{Result, Exec}
use vector_sync.Models.{Metadata, Collection, Document}
use vector_sync.Cache.{CollectionInfo, CollectionCache, get_info, insert_info}

-- `db.UpsertResult`
pub record UpsertResult (F V : Type 0) : Type 0 where
  pub document : Document F V
  pub is_new : Bool

-- `db.SearchResult`
pub record SearchResult (F V : Type 0) : Type 0 where
  pub document : Document F V
  pub score : F

pub record CollectionRepository (V W : Type 0) : Type 0 where
  pub create : String → ℤ → Metadata V → String → String → String → Exec W (Collection V)
  pub list : ℤ → ℤ → Exec W (List (Collection V))
  pub list_by_id : String → Exec W (Collection V)
  pub delete_by_id : String → Exec W ℤ

pub record DocumentRepository (F V W : Type 0) : Type 0 where
  pub create : String → Bytes → List F → Metadata V → Exec W (Document F V)
  pub upsert : String → String → Bytes → List F → Metadata V → Exec W (UpsertResult F V)
  pub list : String → ℤ → ℤ → Bool → Exec W (List (Document F V))
  pub get_by_id : String → Exec W (Document F V)
  pub delete_by_id : String → Exec W (Unit {0})
  pub search :
      String → List F → ℤ → Metadata V → F → Bool → String → Exec W (List (SearchResult F V))
  pub full_text_search : String → Bytes → ℤ → F → Bool → Exec W (List (SearchResult F V))
  pub batch_insert : String → List (Document F V) → Exec W (ℕ × List (Document F V))
  pub batch_delete : String → List String → Exec W (ℕ × List (Document F V))
  pub hybrid_search :
      String
      → Bytes
      → List F
      → ℤ
      → Metadata V
      → F
      → F
      → Bool
      → String
      → Exec W (List (SearchResult F V))

-- float32: the tests and the operations that the services make.
pub record Float32 (F : Type 0) : Type 0 where
  pub is_nan : F → Bool
  pub is_inf : F → Bool
  pub lt : F → F → Bool
  pub eq : F → F → Bool
  pub add : F → F → F
  pub div : F → F → F
  pub zero : F
  pub half : F
  pub one : F

pub record Service (W : Type 0) : Type 0 where
  pub collection_cache : CollectionCache
  pub world : W

module _ {W : Type 0} where
  -- A call of a repository.
  abbrev pub on_repo : {A : Type 0} → Exec W A → Exec (Service W) A
  on_repo m s = let (r, w) = m s.world in (r, record s { world = w })

  -- `s.collectionCache.GetInfo`
  abbrev pub read_cache : String → Exec (Service W) (CollectionInfo × Bool)
  read_cache id s =
      let (found, c) = get_info id s.collection_cache in
      (Result.ok found, record s { collection_cache = c })

  -- `s.collectionCache.Insert`
  abbrev pub fill_cache : String → CollectionInfo → Exec (Service W) (Unit {0})
  fill_cache id info s =
      (Result.ok tt, record s { collection_cache = insert_info id info s.collection_cache })
