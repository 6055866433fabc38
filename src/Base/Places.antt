-- ===== src/Base/Places.antt =====
-- Reading and writing a list by the place of an entry.
use Prim.Native.Nat.{ℕ, zero, suc, ◌<◌}
use mathlib.Core.Path.{◌≡◌, refl, ap}
use mathlib.Core.List.{List, [], ◌∷◌}
use mathlib.Core.Option.{some}
use native.Mathlib.Omega.{arith}
use vector_sync.Base.Tests.{◌==◌, if◌then◌else◌}
use vector_sync.Base.Lists.{length, get_elem?, set, replicate}

module _ {ℓ} {A : Type ℓ} where
  pub length-set : (xs : List A) (i : ℕ) (a : A) → length (set xs i a) ≡ length xs
  length-set [] i a = refl
  length-set (x ∷ xs) zero a = refl
  length-set (x ∷ xs) (suc i) a = ap suc (length-set xs i a)

  pub get_elem?-set :
      (xs : List A) (i j : ℕ) (a : A)
      → i < length xs
      → get_elem? (set xs i a) j ≡ (if i == j then some a else get_elem? xs j)
  get_elem?-set [] i j a h = elim h [ ]
  get_elem?-set (x ∷ xs) zero zero a h = refl
  get_elem?-set (x ∷ xs) zero (suc j) a h = ground arith
  get_elem?-set (x ∷ xs) (suc i) zero a h = ground arith
  get_elem?-set (x ∷ xs) (suc i) (suc j) a h = ground (arith, get_elem?-set xs i j a)

  pub get_elem?-replicate : (n j : ℕ) (a : A) → j < n → get_elem? (replicate n a) j ≡ some a
  get_elem?-replicate zero j a h = elim h [ ]
  get_elem?-replicate (suc n) zero a h = refl
  get_elem?-replicate (suc n) (suc j) a h = get_elem?-replicate n j a (omega arith)

  pub get_elem?-bound : (xs : List A) (j : ℕ) (a : A) → get_elem? xs j ≡ some a → j < length xs
  get_elem?-bound [] j a h = ground arith
  get_elem?-bound (x ∷ xs) zero a h = omega arith
  get_elem?-bound (x ∷ xs) (suc j) a h = omega (arith, get_elem?-bound xs j a h)

  pub some-injective : (a b : A) → some a ≡ some b → a ≡ b
  some-injective a b e = ground arith

  -- Lists of one length that read alike at every place are equal.
  pub get_elem?_ext :
      (xs ys : List A)
      → length xs ≡ length ys
      → ((j : ℕ) → j < length ys → get_elem? xs j ≡ get_elem? ys j)
      → xs ≡ ys
  get_elem?_ext [] [] n h = refl
  get_elem?_ext [] (y ∷ ys) n h = ground arith
  get_elem?_ext (x ∷ xs) [] n h = ground arith
  get_elem?_ext (x ∷ xs) (y ∷ ys) n h =
      let heads = some-injective x y (h zero (omega arith)) in
      let tails = get_elem?_ext xs ys (omega arith) (λ j lt. h (suc j) (omega arith)) in
      cc (heads, tails)
