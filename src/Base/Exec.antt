-- ===== src/Base/Exec.antt =====
-- Go methods that read and write shared state and may return an error. What was written before the
-- error stays written, so the state comes back beside the error too.
use vector_sync.Base.{String, Bool, true, false, List, [], ◌∷◌, ◌≡◌, refl, arith}
use vector_sync.Base.Int.{ℤ}
use vector_sync.Base.Text.{Bytes}

-- The parts of an error message: its literal text and what `%s`, `%q` and `%d` put in.
pub data Part : Type 0 where
  lit str quoted : String → Part
  num : ℤ → Part

pub data Error : Type 0 where
  -- `sql.ErrNoRows`
  no_rows : Error
  -- an error of a library or of the database, by its text
  foreign : Bytes → Error
  -- `errors.New` and `fmt.Errorf`
  message : List Part → Error
  -- `fmt.Errorf("…: %w", err)`
  wrapped : List Part → Error → Error

abbrev pub new_error : String → Error
new_error text = message (lit text ∷ [])

abbrev pub wrap_error : String → Error → Error
wrap_error text e = wrapped (lit text ∷ []) e

pub data Result {ℓ} (A : Type ℓ) : Type ℓ where
  ok : A → Result A
  err : Error → Result A

abbrev pub Exec : Type 0 → Type 0 → Type 0
Exec S A = S → Result A × S

-- `if err != nil { return nil, fmt.Errorf("…: %w", err) }`
abbrev pub wrap_result : {A : Type 0} → String → Result A → Result A
wrap_result text (ok a) = ok a
wrap_result text (err e) = err (wrap_error text e)

module _ {S A : Type 0} where
  abbrev pub pure : A → Exec S A
  pure a s = (ok a, s)

  abbrev pub raise : Error → Exec S A
  raise e s = (err e, s)

  abbrev pub lift : Result A → Exec S A
  lift r s = (r, s)

  abbrev pub wrap : String → Exec S A → Exec S A
  wrap text m s = let (r, s') = m s in (wrap_result text r, s')

-- `if test { return nil, err }`
abbrev pub refuse_if : {S : Type 0} → Bool → Error → Exec S (Unit {0})
refuse_if true e s = (err e, s)
refuse_if false e s = (ok tt, s)

module _ {S A B : Type 0} where
  abbrev pub continue : Result A × S → (A → Exec S B) → Result B × S
  continue (ok a, s) f = f a s
  continue (err e, s) f = (err e, s)

  infixl 10 ◌>>=◌ ◌>>◌
  abbrev pub ◌>>=◌ : Exec S A → (A → Exec S B) → Exec S B
  ◌>>=◌ m f s = continue (m s) f

  abbrev pub ◌>>◌ : Exec S A → Exec S B → Exec S B
  ◌>>◌ m n s = continue (m s) (λ _. n)

  -- A chain that succeeds has a first step that succeeds.
  pub continue-ok :
      (r : Result A × S) (f : A → Exec S B) (b : B) (t : S)
      → continue r f ≡ (ok b, t)
      → (a : A) × (s : S) × (r ≡ (ok a, s)) × (f a s ≡ (ok b, t))
  continue-ok (ok a, s) f b t h = (a, s, refl, h)
  continue-ok (err e, s) f b t h = ground arith

module _ {A S : Type 0} where
  pub ok-parts :
      (a b : A) (s t : S) → ◌≡◌ {A = Result A × S} (ok a, s) (ok b, t) → (a ≡ b) × (s ≡ t)
  ok-parts a b s t h = ground arith

  pub wrapped-ok :
      (text : String) (r : Result A × S) (a : A) (t : S)
      → ◌≡◌ {A = Result A × S} (wrap_result text (r.0), r.1) (ok a, t)
      → r ≡ (ok a, t)
  wrapped-ok text (ok b, s) a t h = h
  wrapped-ok text (err e, s) a t h = ground arith
