-- ===== src/Server/Shutdown.antt =====
-- The order of the shutdown, and how the process ends.
use vector_sync.Base.{
  ℕ, ◌≤◌, ◌≡◌, refl, ◌⊎◌, Bool, true, false, List, [], ◌∷◌, Option, none, some, arith, ◌==◌, ◌&&◌,
  if◌then◌else◌,
}
use vector_sync.Base.Exec.{Error}
use vector_sync.Logger.{
  new_logger, Level, debug_level, info_level, warn_level, error_level, fatal_level, Line,
}
use vector_sync.Server.{Action, says, leaves, returns, exiting, absent, closed}
use vector_sync.Server.{
  Stage, creating, opening, connecting, listening, registering, waiting, shutting, stopping,
  draining, closing, returning, Action, absent, unopened, opened, closed, stopped_soon, stopped,
  Server, advance_main, act, end_warming, start_grpc, end_grpc, start_http, end_http, exit_http,
  Step, main_moves, main_acts, warming_ends, grpc_starts, grpc_ends, http_starts, http_ends,
  http_exits, rpc_begins, rpc_ends, launched, Reach, here, next,
}

-- Before the listener is open.
abbrev is_early : Stage → Bool
is_early (creating p) = true
is_early (opening p) = true
is_early connecting = true
is_early listening = true
is_early (registering g) = false
is_early waiting = false
is_early shutting = false
is_early stopping = false
is_early draining = false
is_early closing = false
is_early returning = false

-- Whether `main` is about to return.
unfoldable will_return : List Action → Bool
will_return [] = false
will_return (says written ∷ actions) = will_return actions
will_return (leaves code ∷ actions) = will_return actions
will_return (returns ∷ actions) = true

-- `main` exits with 1 only.
unfoldable leaves_with_one : List Action → Bool
leaves_with_one [] = true
leaves_with_one (says written ∷ actions) = leaves_with_one actions
leaves_with_one (leaves code ∷ actions) = (code == 1) && leaves_with_one actions
leaves_with_one (returns ∷ actions) = leaves_with_one actions

abbrev is_fatal_level : Level → Bool
is_fatal_level fatal_level = true
is_fatal_level error_level = false
is_fatal_level warn_level = false
is_fatal_level info_level = false
is_fatal_level debug_level = false

abbrev is_fatal : Line → Bool
is_fatal written = is_fatal_level written.level

-- A line of `Fatalf` has been written.
unfoldable pub has_fatal : List Line → Bool
has_fatal [] = false
has_fatal (written ∷ lines) = if is_fatal written then true else has_fatal lines

-- `main` writes a line of `Fatalf` before it exits.
unfoldable warns_first : List Action → Bool
warns_first [] = true
warns_first (says written ∷ actions) = if is_fatal written then true else warns_first actions
warns_first (leaves code ∷ actions) = false
warns_first (returns ∷ actions) = warns_first actions

-- What holds at every moment of the process.
record IsOrdered (s : Server) : Type 0 where
  unserved : s.database ≡ unopened → s.grpc_serve ≡ absent
  early : is_early s.main ≡ true → s.grpc_serve ≡ absent
  idle : s.grpc_serve ≡ absent → s.active ≡ 0
  at_listening : s.main ≡ listening → s.database ≡ opened
  at_stopping : s.main ≡ stopping → s.http_shut ≡ true
  at_draining : s.main ≡ draining → (s.http_shut ≡ true) × (s.grpc ≡ stopped_soon)
  at_closing : s.main ≡ closing → (s.http_shut ≡ true) × (s.active ≡ 0) × (s.grpc ≡ stopped)
  at_returning : s.main ≡ returning → s.database ≡ closed
  last : s.database ≡ closed → s.main ≡ returning
  leaving : leaves_with_one s.todo ≡ true
  about_to : will_return s.todo ≡ true → (s.database ≡ closed) ⊎ (s.grpc_serve ≡ absent)
  done : s.exit_code ≡ some 0 → (s.database ≡ closed) ⊎ (s.grpc_serve ≡ absent)
  codes : (s.exit_code ≡ none) ⊎ ((s.exit_code ≡ some 0) ⊎ (s.exit_code ≡ some 1))
  warned : (has_fatal s.logged ≡ true) ⊎ (warns_first s.todo ≡ true)
  exiting_http : s.http_serve ≡ exiting → has_fatal s.logged ≡ true
  failed : s.exit_code ≡ some 1 → has_fatal s.logged ≡ true
  after : s.database ≡ closed → (s.http_shut ≡ true) × (s.active ≡ 0) × (s.grpc ≡ stopped)

advance-IsOrdered :
    (x : Stage) (e : Option Error) (s : Server)
    → s.main ≡ x
    → s.exit_code ≡ none
    → s.todo ≡ []
    → (s.main ≡ draining → s.active ≡ 0)
    → IsOrdered s
    → IsOrdered (advance_main x e s)
unfolding advance_main new_logger will_return leaves_with_one has_fatal warns_first
advance-IsOrdered x e s m j k i h = ground arith

act-IsOrdered :
    (a : Action) (actions : List Action) (s : Server)
    → s.exit_code ≡ none
    → s.todo ≡ a ∷ actions
    → IsOrdered s
    → IsOrdered (act a actions s)
unfolding act will_return leaves_with_one has_fatal warns_first
act-IsOrdered a actions s j k h = ground arith

Step-IsOrdered : {s t : Server} → Step s t → IsOrdered s → IsOrdered t
unfolding end_warming start_grpc end_grpc start_http end_http exit_http has_fatal
Step-IsOrdered {s} (main_moves e x j i) h = advance-IsOrdered s.main e s refl x j i h
Step-IsOrdered {s} (main_acts a actions x j) h = act-IsOrdered a actions s x j h
Step-IsOrdered {s} (warming_ends e x i) h = ground arith
Step-IsOrdered {s} (grpc_starts x i) h = ground arith
Step-IsOrdered {s} (grpc_ends e x i) h = ground arith
Step-IsOrdered {s} (http_starts x i) h = ground arith
Step-IsOrdered {s} (http_ends e x i) h = ground arith
Step-IsOrdered {s} (http_exits x i) h = ground arith
Step-IsOrdered {s} (rpc_begins x i f) h = ground arith
Step-IsOrdered {s} (rpc_ends n x i) h = ground arith

Reach-IsOrdered : {s : Server} → Reach launched s → IsOrdered s
unfolding will_return leaves_with_one has_fatal warns_first
Reach-IsOrdered here = ground arith
Reach-IsOrdered (next r step) = Step-IsOrdered step (Reach-IsOrdered r)

-- Whatever the calls return and in whatever order things happen: once the database is closed, the shutdown of
-- the gateway was asked for, the gRPC server has stopped and no RPC runs; and while an RPC runs, the
-- database is open.
pub Reach-closed :
    (s : Server)
    → Reach launched s
    → (s.database ≡ closed → (s.http_shut ≡ true) × (s.grpc ≡ stopped) × (s.active ≡ 0))
      × (1 ≤ s.active → s.database ≡ opened)
Reach-closed s r = let h = Reach-IsOrdered r in ground arith

-- How the process ends: with the status 0 only when the database has been closed, as at the end of the
-- shutdown, or when nothing was served; any other end has the status 1, and there is a line of
-- `Fatalf` in the log.
pub Reach-exit_code :
    (s : Server) (code : ℕ)
    → Reach launched s
    → s.exit_code ≡ some code
    → ((code ≡ 0) × ((s.database ≡ closed) ⊎ (s.grpc_serve ≡ absent)))
      ⊎ ((code ≡ 1) × (has_fatal s.logged ≡ true))
Reach-exit_code s code r e = let h = Reach-IsOrdered r in ground arith
