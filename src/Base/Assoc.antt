-- ===== src/Base/Assoc.antt =====
-- A Go `map[string]V` as an association list.
use text.Mathlib.Text.{◌==◌}
use text.Mathlib.TextEquality.{eq_iff}
use vector_sync.Base.{String, ◌≡◌, refl, List, [], ◌∷◌, Option, none, some, arith, if◌then◌else◌}

module _ {ℓ} {V : Type ℓ} where
  -- `m[key]`
  unfoldable pub lookup : String → List (String × V) → Option V
  lookup key [] = none
  lookup key ((name, value) ∷ rest) =
      let behind = lookup key rest in if name == key then some value else behind

  -- `m[key] = new`
  unfoldable pub insert : String → V → List (String × V) → List (String × V)
  insert key new [] = (key, new) ∷ []
  insert key new ((name, old) ∷ rest) =
      let behind = insert key new rest in
      if name == key then (name, new) ∷ rest else (name, old) ∷ behind

  -- `delete(m, key)`: every entry of the key is taken out.
  unfoldable pub erase : String → List (String × V) → List (String × V)
  erase key [] = []
  erase key ((name, old) ∷ rest) =
      let behind = erase key rest in if name == key then behind else (name, old) ∷ behind

  pub lookup-insert :
      (key wanted : String) (new : V) (entries : List (String × V))
      → lookup wanted (insert key new entries)
        ≡ (if key == wanted then some new else lookup wanted entries)
  unfolding lookup insert
  lookup-insert key wanted new [] = refl
  lookup-insert key wanted new ((name, old) ∷ rest) = ground (
    arith,
    lookup-insert key wanted new rest,
    eq_iff name key,
    eq_iff name wanted,
    eq_iff key wanted,
  )

  pub lookup-erase :
      (key wanted : String) (entries : List (String × V))
      → lookup wanted (erase key entries) ≡ (if key == wanted then none else lookup wanted entries)
  unfolding lookup erase
  lookup-erase key wanted [] = ground arith
  lookup-erase key wanted ((name, old) ∷ rest) =
      ground (
        arith,
        lookup-erase key wanted rest,
        eq_iff name key,
        eq_iff name wanted,
        eq_iff key wanted,
      )
