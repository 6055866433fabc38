-- ===== src/Metrics/Inflight.antt =====
-- internal/metrics/interceptor.go over RPCs that run at once: what it does before the handler and behind it are
-- steps of their own, and others may come in between. The counters are atomic.
use text.Mathlib.Text.{◌==◌}
use vector_sync.Base.{
  ℕ, zero, suc, ◌+◌, ◌-◌, String, ◌≡◌, refl, List, [], ◌∷◌, Option, some, get_elem?, length,
  if◌then◌else◌,
}
use vector_sync.Base.Int.{pos, negsuc}
use vector_sync.Base.Exec.{Error, Exec}
use vector_sync.Metrics.{Recorded, error_of, add_inflight, unary_server_interceptor}

-- Before the handler, and behind it at the time `now`.
unfoldable pub before_handler : String → Recorded → Recorded
before_handler method m = record m { rpc_inflight = add_inflight method (pos 1) m.rpc_inflight }

unfoldable pub behind_handler : String → String → ℕ → ℕ → Recorded → Recorded
behind_handler method code start now m = record m {
  rpc_inflight = add_inflight method (negsuc 0) m.rpc_inflight;
  rpc_durations = (method, code, now - start) ∷ m.rpc_durations;
}

-- The interceptor is the two with the handler between them.
pub unary_server_interceptor-behind_handler :
    {W A : Type 0} (clock : W → ℕ) (code_of : Option Error → String) (method : String)
    (handler : Exec W A) (m : Recorded) (w : W)
    → let (r, w') = handler w in
      unary_server_interceptor clock code_of method handler (m, w) ≡ (
        r,
        (
          behind_handler method
              (code_of (error_of r))
              (clock w)
              (clock w')
              (before_handler method m),
          w',
        ),
      )
unfolding unary_server_interceptor before_handler behind_handler
unary_server_interceptor-behind_handler clock code_of method handler m w = refl

-- The RPCs that run, each with its method and its start.
pub record Calls : Type 0 where
  pub recorded : Recorded
  pub running : List (String × ℕ)
  pub begun : ℕ

abbrev remove {ℓ} : {A : Type ℓ} → List A → ℕ → List A
remove [] i = []
remove (x ∷ xs) zero = xs
remove (x ∷ xs) (suc i) = x ∷ remove xs i

pub data Step (c : Calls) : Calls → Type 0 where
  begins :
      (method : String) (now : ℕ)
      → Step c (record {
        recorded = before_handler method c.recorded;
        running = (method, now) ∷ c.running;
        begun = c.begun + 1;
      })
  -- any of those that run returns, with any code
  returns :
      (i : ℕ) (method code : String) (start now : ℕ)
      → get_elem? c.running i ≡ some (method, start)
      → Step c (record c {
        recorded = behind_handler method code start now c.recorded;
        running = remove c.running i;
      })

abbrev pub no_calls : Calls
no_calls = record {
  recorded = record { rpc_inflight = λ label. pos 0; rpc_durations = []; http_durations = [] };
  running = [];
  begun = 0;
}

pub data Reach (c : Calls) : Calls → Type 0 where
  here : Reach c c
  next : {d e : Calls} → Reach c d → Step d e → Reach c e

-- How many of the RPCs are of the method.
unfoldable pub count_method : String → List (String × ℕ) → ℕ
count_method label [] = 0
count_method label ((method, start) ∷ calls) =
    let rest = count_method label calls in if label == method then rest + 1 else rest

record IsCounted (c : Calls) : Type 0 where
  gauges : (label : String) → c.recorded.rpc_inflight label ≡ pos (count_method label c.running)
  observed : length c.recorded.rpc_durations + length c.running ≡ c.begun
