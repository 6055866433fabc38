-- ===== src/Handlers/Rpcs/Growing.antt =====
-- The methods on collections and the health check, and the table of collections.
use text.Mathlib.Text.{◌==◌}
use vector_sync.Base.{String, ◌≡◌, true, some, not, Bool-cases, inl, inr}
use vector_sync.Base.Int.{ℤ}
use vector_sync.Base.Keeps.{
  Keeps, if-Keeps, continue-keeps, lift-Keeps, refuse_if-Keeps, then-Keeps, checked-Keeps,
}
use vector_sync.Base.Exec.{Result, ok, err, Exec, pure}
use vector_sync.Models.{Metadata}
use vector_sync.Cache.{CollectionInfo}
use vector_sync.Services.Interfaces.{CollectionRepository, on_repo}
use vector_sync.Services.Collections.{
  rename_duplicate, check_embedding, create_collection, list_collection,
}
use vector_sync.Services.Documents.Coherent.{Table, IsCoherent, IsQuiet}
use vector_sync.Handlers.Health.{check_health, check_readiness, check_liveness}

module _ {W : Type 0} (table : Table W) where
  -- What the table holds of a collection, it holds behind `m` too.
  abbrev pub IsGrowing : {A : Type 0} → Exec W A → Type 0
  IsGrowing m = (id : String) (info : CollectionInfo) → Keeps (λ w. table id w ≡ some info) m

  -- An insertion keeps the rows that there are, and a listing and a ping keep the table.
  pub record GrowsTables {V : Type 0} (collections : CollectionRepository V W)
      (ping : Exec W (Unit {0})) : Type 0 where
    pub create_grows :
        (name : String) (dimension : ℤ) (schema : Metadata V) (metric provider model : String)
        → IsGrowing (collections.create name dimension schema metric provider model)
    pub list_grows : (limit offset : ℤ) → IsGrowing (collections.list limit offset)
    pub ping_grows : IsGrowing ping

  pub on_repo-IsCoherent :
      {A : Type 0} (m : Exec W A) → IsGrowing m → Keeps (IsCoherent table) (on_repo m)
  on_repo-IsCoherent m g = record { kept = λ s h id info e. (g id info).kept s.world (h id info e) }

module _ {S : Type 0} {P : S → Type 0} where
  rename_duplicate-Keeps :
      {A : Type 0} (m : Exec S A) → Keeps P m → Keeps P (λ s. rename_duplicate (m s))
  rename_duplicate-Keeps m k = record { kept = λ s h. renamed (m s) (k.kept s h) }
    where
      renamed : {A : Type 0} (r : Result A × S) → P (r.1) → P ((rename_duplicate r).1)
      renamed (ok a, s) h = h
      renamed (err e, s) h = h

  check_embedding-Keeps : (provider model : String) → Keeps P (check_embedding provider model)
  unfolding check_embedding
  check_embedding-Keeps provider model =
      if-Keeps (not (provider == "")) _ _ (checked-Keeps _ _ _ (refuse_if-Keeps _ _))
        (refuse_if-Keeps _ _)

module _ {V W : Type 0} (collections : CollectionRepository V W) (ping : Exec W (Unit {0}))
    (table : Table W) (grows : GrowsTables table collections ping) where
  pub create_collection-IsGrowing :
      (name : String) (dimension : ℤ) (schema : Metadata V) (metric provider model : String)
      → IsGrowing table (create_collection collections name dimension schema metric provider model)
  unfolding create_collection
  create_collection-IsGrowing name dimension schema metric provider model id info =
      search
        (
          checked-Keeps, then-Keeps, check_embedding-Keeps, rename_duplicate-Keeps,
          grows.create_grows,
        )
        depth 9

  pub list_collection-IsGrowing :
      (quiet : (id : String) → IsQuiet table (collections.list_by_id id)) (id : String)
      → IsGrowing table (list_collection collections id)
  unfolding list_collection
  list_collection-IsGrowing quiet id name info = search (checked-Keeps, read) depth 9
    where
      read : Keeps (λ w. table name w ≡ some info) (collections.list_by_id id)
      read = record { kept = λ w h. quiet id w name info h }

  pub check-IsGrowing : (service : String) → IsGrowing table (check_health (some ping) service)
  unfolding check_health check_readiness check_liveness
  check-IsGrowing service id info = record {
    kept = λ w h. elim (Bool-cases (service == "readiness")) [
      | inl e ↦ rw e (
          continue-keeps {P = λ v. table id v ≡ some info} (ping w) (λ _. pure true)
            (λ _. lift-Keeps (ok true)) ((grows.ping_grows id info).kept w h))
      | inr e ↦ rw e h
    ];
  }
