-- ===== src/Metrics.antt =====
-- internal/metrics: what the interceptor of the RPCs and the middleware of the gateway record, and the
-- numbers of the connection pool. The clock and `status.Code` are parameters, and prometheus is the
-- record of what was told to it. Inflight has RPCs that run at once, and Ingestion the collectors of
-- ingestions and index builds.
pub mod Inflight
pub mod Ingestion
use text.Mathlib.Text.{◌==◌}
use vector_sync.Base.{
  ℕ, ◌-◌, String, ◌≡◌, refl, List, [], ◌∷◌, Option, none, some, if◌then◌else◌, arith, Bool-cases,
  inl, inr,
}
use vector_sync.Base.Int.{ℤ, pos, negsuc, ◌+ℤ◌}
use vector_sync.Base.Exec.{Error, Result, ok, err, Exec}

-- `RPCInflight`, `RPCDuration` and `HTTPDuration`: the gauge of each method, and the observations, the
-- newest first.
pub record Recorded : Type 0 where
  pub rpc_inflight : String → ℤ
  pub rpc_durations : List (String × String × ℕ)
  pub http_durations : List (ℕ × ℕ)

-- The error of a result, as `err` holds it.
abbrev pub error_of : {A : Type 0} → Result A → Option Error
error_of (ok a) = none
error_of (err e) = some e

-- `RPCInflight.WithLabelValues(method).Add(n)`
unfoldable pub add_inflight : String → ℤ → (String → ℤ) → String → ℤ
add_inflight method n gauge label = if label == method then gauge label +ℤ n else gauge label

-- The calls of `WriteHeader`, in order, over the recorded code: each replaces it.
unfoldable pub write_headers : ℕ → List ℕ → ℕ
write_headers code [] = code
write_headers code (c ∷ codes) = write_headers c codes

module _ {W : Type 0} (clock : W → ℕ) where
  -- `UnaryServerInterceptor`; `code_of` is `status.Code` of the error.
  unfoldable pub unary_server_interceptor :
      {A : Type 0} → (Option Error → String) → String → Exec W A → Exec (Recorded × W) A
  unary_server_interceptor code_of method handler (m, w) =
      let (response, w') = handler w in
      let gauge = add_inflight method (negsuc 0) (add_inflight method (pos 1) m.rpc_inflight) in
      (
        response,
        (
          record m {
            rpc_inflight = gauge;
            rpc_durations =
                (method, code_of (error_of response), clock w' - clock w) ∷ m.rpc_durations;
          },
          w',
        ),
      )

  -- `HTTPMiddleware`, over a handler by the codes that it writes
  unfoldable pub http_middleware : (W → List ℕ × W) → Recorded × W → Recorded × W
  http_middleware next (m, w) =
      let (codes, w') = next w in
      (
        record m {
          http_durations = (write_headers 200 codes, clock w' - clock w) ∷ m.http_durations;
        },
        w',
      )

up_and_down : (n : ℤ) → (n +ℤ pos 1) +ℤ negsuc 0 ≡ n
unfolding ◌+ℤ◌
up_and_down (pos n) = ground arith
up_and_down (negsuc n) = ground arith

inflight_again :
    (method label : String) (gauge : String → ℤ)
    → add_inflight method (negsuc 0) (add_inflight method (pos 1) gauge) label ≡ gauge label
unfolding add_inflight
inflight_again method label gauge = elim (Bool-cases (label == method)) [
  | inl e ↦ rw e (up_and_down (gauge label))
  | inr e ↦ rw e refl
]

-- The interceptor passes on what the handler answers and does, leaves the gauge of every method as it was,
-- and has observed the call once, under its method and its code.
pub unary_server_interceptor-handler :
    {W A : Type 0} (clock : W → ℕ) (code_of : Option Error → String) (method : String)
    (handler : Exec W A) (m : Recorded) (w : W)
    → let (r, after) = unary_server_interceptor clock code_of method handler (m, w) in
      (r ≡ (handler w).0)
      × (after.1 ≡ (handler w).1)
      × ((label : String) → (after.0).rpc_inflight label ≡ m.rpc_inflight label)
      × ((after.0).rpc_durations
          ≡ (method, code_of (error_of r), clock (after.1) - clock w) ∷ m.rpc_durations)
unfolding unary_server_interceptor
unary_server_interceptor-handler clock code_of method handler m w =
    (refl, refl, λ label. inflight_again method label m.rpc_inflight, refl)

-- `sql.DBStats`, as far as it is read; the time in seconds
pub record PoolStats : Type 0 where
  pub open_connections : ℕ
  pub in_use : ℕ
  pub idle : ℕ
  pub wait_count : ℕ
  pub wait_duration : ℕ
  pub max_idle_closed : ℕ
  pub max_lifetime_closed : ℕ

-- `Describe`, by the names that `NewDBCollector` gives
unfoldable pub describe : List String
describe =
    "open_connections" ∷ "in_use_connections" ∷ "idle_connections" ∷ "wait_total"
    ∷ "wait_duration_seconds_total" ∷ "max_idle_closed_total" ∷ "max_lifetime_closed_total" ∷ []

-- `Collect`: each number under the name of its descriptor
unfoldable pub collect : PoolStats → List (String × ℕ)
collect s =
    ("open_connections", s.open_connections)
    ∷ ("in_use_connections", s.in_use)
    ∷ ("idle_connections", s.idle)
    ∷ ("wait_total", s.wait_count)
    ∷ ("wait_duration_seconds_total", s.wait_duration)
    ∷ ("max_idle_closed_total", s.max_idle_closed)
    ∷ ("max_lifetime_closed_total", s.max_lifetime_closed)
    ∷ []
