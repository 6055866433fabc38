-- ===== src/Handlers/Searches/Calls.antt =====
-- How a handler goes on behind one call of the repository, and the default that it puts in for a count.
use mathlib.Core.Path.{subst}
use vector_sync.Base.{arith, ℕ, String, ◌≡◌, sym, ap, ◌∙◌}
use vector_sync.Base.Int.{ℤ, pos}
use vector_sync.Base.Exec.{Result, ok, err, Exec, wrap, wrap_result, continue}
use vector_sync.Services.Interfaces.{Service, on_repo}
use vector_sync.Services.Collections.Checks.{Refused}
use vector_sync.Services.Documents.Listing.{or_default}
use vector_sync.Services.Documents.Pages.{StandsFor}

-- A default that is put in twice.
pub StandsFor-default :
    (k : ℕ) (limit : ℤ)
    → StandsFor 10 1000 (or_default (pos 10) limit) k
    → StandsFor 10 1000 limit k
StandsFor-default k limit h = ground arith

module _ {A B W : Type 0} (text : String) (f : A → Exec (Service W) B) (t : Service W)
    (r : Result A × Service W) where
  -- A call of the repository that fails and touches nothing.
  pub Refused-call :
      (x : Exec W A)
      → r ≡ wrap text (on_repo x) t
      → Refused (x t.world) t.world
      → Refused (continue r f) t
  Refused-call x e h = subst (λ q. Refused (continue q f) t) (sym e) (behind (x t.world) h)
    where
      behind :
          (q : Result A × W)
          → Refused q t.world
          → Refused (continue (wrap_result text (q.0), record t { world = q.1 }) f) t
      behind (ok a, w) g = absurd g
      behind (err z, w) g = ap (λ v. record t { world = v }) g

  -- A call of the repository that is another one.
  pub same_call :
      (x y : Exec W A)
      → r ≡ wrap text (on_repo x) t
      → x t.world ≡ y t.world
      → continue r f ≡ continue (wrap text (on_repo y) t) f
  same_call x y e h =
      ap (λ q. continue q f) (e ∙ ap (λ q. (wrap_result text (q.0), record t { world = q.1 })) h)
