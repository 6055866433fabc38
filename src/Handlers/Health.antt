-- ===== src/Handlers/Health.antt =====
-- internal/services/health_service.go and internal/grpc/health_handler.go.
use text.Mathlib.Text.{◌==◌}
use text.Mathlib.TextEquality.{eq_iff}
use mathlib.Core.Bool.{false≢true}
use vector_sync.Base.{
  String, ◌≡◌, ◌≢◌, refl, sym, ap, ◌∙◌, ◌⊎◌, inl, inr, Bool, true, false, Option, none, some,
  if◌then◌else◌, Bool-cases, arith,
}
use vector_sync.Base.Exec.{new_error, Result, ok, err, Exec, pure, continue, ◌>>◌}

-- `pb.ServingStatus`, as far as the handler sets it
pub data ServingStatus : Type 0 where
  serving not_serving : ServingStatus

-- `CheckLiveness`
unfoldable pub check_liveness : {W : Type 0} → Exec W Bool
check_liveness = pure true

-- `CheckReadiness`, over a database that may be nil and its `Ping`. An error comes with `false`.
unfoldable pub check_readiness : {W : Type 0} → Option (Exec W (Unit {0})) → Exec W Bool
check_readiness none = pure false
check_readiness (some ping) = do ping; pure true

-- `if err != nil || !ready { … }`
abbrev pub readiness_status : Result Bool → ServingStatus
readiness_status (err e) = ServingStatus.not_serving
readiness_status (ok ready) = if ready then ServingStatus.serving else ServingStatus.not_serving

abbrev pub liveness_status : Result Bool → Result ServingStatus
liveness_status (err e) = err (new_error "liveness check failed")
liveness_status (ok alive) =
    if alive then ok ServingStatus.serving else err (new_error "liveness check failed")

-- `Check`
unfoldable pub check_health :
    {W : Type 0} → Option (Exec W (Unit {0})) → String → Exec W ServingStatus
check_health db service w =
    let readiness = check_readiness db w in
    let liveness = check_liveness w in
    if service == "readiness"
    then (ok (readiness_status (readiness.0)), readiness.1)
    else (liveness_status (liveness.0), liveness.1)

-- There is a database and its ping succeeds.
abbrev pub IsReady : {W : Type 0} → Option (Exec W (Unit {0})) → W → Type 0
IsReady none w = ⊥
IsReady (some ping) w = (ping w).0 ≡ ok tt

readiness-cases :
    {W : Type 0} (db : Option (Exec W (Unit {0}))) (w : W)
    → (IsReady db w × (readiness_status ((check_readiness db w).0) ≡ serving))
      ⊎ ((¬ IsReady db w) × (readiness_status ((check_readiness db w).0) ≡ not_serving))
unfolding check_readiness
readiness-cases none w = inr (λ h. h, refl)
readiness-cases {W} (some ping) w = answered (ping w)
  where
    answered :
        (r : Result (Unit {0}) × W)
        → ((r.0 ≡ ok tt) × (readiness_status ((continue r (λ _. pure true)).0) ≡ serving))
          ⊎ ((¬ (r.0 ≡ ok tt)) × (readiness_status ((continue r (λ _. pure true)).0) ≡ not_serving))
    answered (ok u, w') = inl (refl, refl)
    answered (err e, w') = inr (λ h. ground arith, refl)

-- The check never fails. It answers that the server does not serve exactly when it is asked for its
-- readiness and there is no database or its ping fails.
pub check_health-cases :
    {W : Type 0} (db : Option (Exec W (Unit {0}))) (service : String) (w : W)
    → (((service ≢ "readiness") ⊎ IsReady db w) × ((check_health db service w).0 ≡ ok serving))
      ⊎ ((service ≡ "readiness")
          × (¬ IsReady db w)
          × ((check_health db service w).0 ≡ ok not_serving))
unfolding check_health check_liveness
check_health-cases db service w = elim (Bool-cases (service == "readiness")) [
  | inr n ↦ inl (inl (λ e. false≢true (sym n ∙ (eq_iff service "readiness").1 e)), rw n refl)
  | inl n ↦ elim (readiness-cases db w) [
    | inl (r, e) ↦ inl (inr r, rw n (ap ok e))
    | inr (r, e) ↦ inr ((eq_iff service "readiness").0 n, r, rw n (ap ok e))
  ]
]
