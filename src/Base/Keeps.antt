-- ===== src/Base/Keeps.antt =====
-- What holds of the state before an action and after it, however the action ends. The lemmas follow
-- the ways in which the methods are put together.
use vector_sync.Base.{String, Bool, true, false, if◌then◌else◌}
use vector_sync.Base.Exec.{
  Error, Result, ok, err, Exec, pure, wrap, refuse_if, continue, ◌>>=◌, ◌>>◌,
}

-- `P` of the state is kept by `m`.
pub record Keeps {S A : Type 0} (P : S → Type 0) (m : Exec S A) : Type 0 where
  pub kept : (s : S) → P s → P ((m s).1)

module _ {S : Type 0} {P : S → Type 0} where
  pub lift-Keeps : {A : Type 0} (r : Result A) → Keeps P (λ s. (r, s))
  lift-Keeps r = record { kept = λ s h. h }

  pub refuse_if-Keeps : (b : Bool) (e : Error) → Keeps P (refuse_if b e)
  refuse_if-Keeps true e = record { kept = λ s h. h }
  refuse_if-Keeps false e = record { kept = λ s h. h }

  pub wrap-Keeps : {A : Type 0} (text : String) (m : Exec S A) → Keeps P m → Keeps P (wrap text m)
  wrap-Keeps text m k = record { kept = λ s h. k.kept s h }

  -- Behind an answer `r`, whose state has `P`.
  pub continue-keeps :
      {A B : Type 0} (r : Result A × S) (f : A → Exec S B)
      → ((a : A) → Keeps P (f a))
      → P (r.1)
      → P ((continue r f).1)
  continue-keeps (ok a, s) f k h = (k a).kept s h
  continue-keeps (err e, s) f k h = h

  pub then-Keeps :
      {A B : Type 0} (first : Exec S A) (rest : A → Exec S B)
      → Keeps P first
      → ((a : A) → Keeps P (rest a))
      → Keeps P (first >>= rest)
  then-Keeps first rest k l = record { kept = λ s h. continue-keeps (first s) rest l (k.kept s h) }

  -- Behind a check, which keeps anything.
  pub checked-Keeps :
      {A : Type 0} (b : Bool) (e : Error) (m : Exec S A) → Keeps P m → Keeps P (refuse_if b e >> m)
  checked-Keeps b e m k = then-Keeps (refuse_if b e) (λ _. m) (refuse_if-Keeps b e) (λ _. k)

  -- A result that is only converted.
  pub then_pure-Keeps :
      {A B : Type 0} (m : Exec S A) (f : A → B) → Keeps P m → Keeps P (m >>= λ a. pure (f a))
  then_pure-Keeps m f k = then-Keeps m (λ a. pure (f a)) k (λ a. lift-Keeps (ok (f a)))

  pub if-Keeps :
      {A : Type 0} (b : Bool) (m n : Exec S A)
      → Keeps P m
      → Keeps P n
      → Keeps P (if b then m else n)
  if-Keeps true m n k l = k
  if-Keeps false m n k l = l
