-- ===== src/Cache/Entries.antt =====
-- What holds of every entry of the cache, behind `Insert`, `GetInfo` and `WarmFromDB`.
use mathlib.Core.Path.{subst₂}
use text.Mathlib.Text.{◌==◌}
use text.Mathlib.TextEquality.{eq_iff}
use vector_sync.Base.{
  ℕ, zero, suc, String, ◌≡◌, refl, sym, ap, ◌∙◌, inl, inr, List, [], ◌∷◌, Option, some, arith,
  Bool-cases, get_elem?, some-injective,
}
use vector_sync.Base.Assoc.{lookup, lookup-insert}
use vector_sync.Base.Exec.{Error, Result, ok, err}
use vector_sync.Cache.{
  CollectionInfo, CollectionCache, WarmRow, new_cache, row_info, get_info, insert_info, warm_rows,
  warm_from_db,
}

pub get_info-cache : (id : String) (c : CollectionCache) → ((get_info id c).1).cache ≡ c.cache
unfolding get_info
get_info-cache id c = ground arith

-- `P` of every id that is cached and of its entry.
abbrev pub IsEverywhere : (String → CollectionInfo → Type 0) → CollectionCache → Type 0
IsEverywhere P c = (id : String) (info : CollectionInfo) → lookup id c.cache ≡ some info → P id info

module _ (P : String → CollectionInfo → Type 0) where
  pub new_cache-IsEverywhere : IsEverywhere P new_cache
  unfolding new_cache lookup
  new_cache-IsEverywhere id info e = absurd (ground arith)

  pub insert_info-IsEverywhere :
      (id : String) (info : CollectionInfo) (c : CollectionCache)
      → P id info
      → IsEverywhere P c
      → IsEverywhere P (insert_info id info c)
  unfolding insert_info
  insert_info-IsEverywhere id info c p h name found e = elim (Bool-cases (id == name)) [
    | inl b ↦
        subst₂ P ((eq_iff id name).0 b)
          (some-injective info found (sym (lookup-insert id name info c.cache ∙ rw b refl) ∙ e)) p
    | inr b ↦ h name found (sym (lookup-insert id name info c.cache ∙ rw b refl) ∙ e)
  ]

  pub get_info-IsEverywhere :
      (id : String) (c : CollectionCache) → IsEverywhere P c → IsEverywhere P ((get_info id c).1)
  get_info-IsEverywhere id c h name found e =
      h name found (ap (lookup name) (sym (get_info-cache id c)) ∙ e)

  warm_rows-IsEverywhere :
      (rows : List (Result WarmRow)) (last : Option Error) (c : CollectionCache)
      → ((j : ℕ) (r : WarmRow) → get_elem? rows j ≡ some (ok r) → P r.id (row_info r))
      → IsEverywhere P c
      → IsEverywhere P ((warm_rows rows last c).1)
  unfolding warm_rows
  warm_rows-IsEverywhere [] last c p h = h
  warm_rows-IsEverywhere (err e ∷ rows) last c p h = h
  warm_rows-IsEverywhere (ok r ∷ rows) last c p h =
      warm_rows-IsEverywhere rows last (insert_info r.id (row_info r) c) (λ j. p (suc j))
        (insert_info-IsEverywhere r.id (row_info r) c (p zero r refl) h)

  -- Every row that the query gives is as `P` says.
  pub warm_from_db-IsEverywhere :
      (answer : Result (List (Result WarmRow) × Option Error)) (c : CollectionCache)
      → ((rows : List (Result WarmRow)) (last : Option Error) (j : ℕ) (r : WarmRow)
          → answer ≡ ok (rows, last)
          → get_elem? rows j ≡ some (ok r)
          → P r.id (row_info r))
      → IsEverywhere P c
      → IsEverywhere P ((warm_from_db answer c).1)
  unfolding warm_from_db
  warm_from_db-IsEverywhere (err e) c p h = h
  warm_from_db-IsEverywhere (ok (rows, last)) c p h =
      warm_rows-IsEverywhere rows last c (λ j r. p rows last j r refl) h
