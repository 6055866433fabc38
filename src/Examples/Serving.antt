-- ===== src/Examples/Serving.antt =====
-- A run of the program: it starts, serves one RPC, which runs until `GracefulStop` waits for it, and shuts
-- down; and one that finds no database.
use vector_sync.Base.{ℕ, ◌+◌, ◌≤◌, ◌≡◌, refl, ◌⊎◌, inl, true, List, [], ◌∷◌, none, some, arith}
use vector_sync.Base.Exec.{new_error}
use vector_sync.Logger.{new_logger}
use vector_sync.Server.{
  absent, draining, opened, closed, stopped, Action, says, leaves, returns, Server, advance_main,
  act, start_grpc, main_moves, main_acts, grpc_starts, rpc_begins, rpc_ends, launched, Reach, here,
  next,
}
use vector_sync.Server.Shutdown.{has_fatal, Reach-closed, Reach-exit_code}

-- `main` writes the lines that come next.
abbrev spoken : List Action → Server → Server
spoken [] s = s
spoken (says written ∷ actions) s = spoken actions (act (says written) actions s)
spoken (leaves code ∷ actions) s = s
spoken (returns ∷ actions) s = s

-- `main` makes its next call, which returns nil, and writes what comes behind it.
abbrev moved : Server → Server
moved s = let t = advance_main s.main none s in spoken t.todo t

-- Up to the wait for a signal.
abbrev listening_on : Server
listening_on = moved (moved (moved (moved (moved (moved launched)))))

abbrev one_call : Server
one_call =
    let s = start_grpc (moved (moved (moved listening_on))) in record s { active = s.active + 1 }

abbrev told_to_stop : Server
told_to_stop = moved (moved (moved one_call))

abbrev done : Server
done = moved (moved (record told_to_stop { active = 0 }))

spoken-Reach :
    (actions : List Action) {s : Server}
    → Reach launched s
    → s.exit_code ≡ none
    → s.todo ≡ actions
    → Reach launched (spoken actions s)
unfolding act
spoken-Reach [] r x e = r
spoken-Reach (says written ∷ actions) r x e =
    spoken-Reach actions (next r (main_acts (says written) actions x e)) x refl
spoken-Reach (leaves code ∷ actions) r x e = r
spoken-Reach (returns ∷ actions) r x e = r

moves :
    {s : Server}
    → Reach launched s
    → s.exit_code ≡ none
    → s.todo ≡ []
    → (s.main ≡ draining → s.active ≡ 0)
    → (advance_main s.main none s).exit_code ≡ none
    → Reach launched (moved s)
moves {s} r x e n y =
    spoken-Reach (advance_main s.main none s).todo (next r (main_moves none x e n)) y refl

-- While no RPC runs.
quiet :
    {s : Server}
    → Reach launched s
    → s.exit_code ≡ none
    → s.todo ≡ []
    → s.active ≡ 0
    → (advance_main s.main none s).exit_code ≡ none
    → Reach launched (moved s)
quiet r x e n y = moves r x e (λ q. n) y

listening_on-Reach : Reach launched listening_on
unfolding advance_main new_logger act
listening_on-Reach =
    quiet
      (quiet
        (quiet
          (quiet (quiet (quiet here refl refl refl refl) refl refl refl refl) refl refl refl refl)
          refl refl refl refl)
        refl refl refl refl)
      refl refl refl refl

one_call-Reach : Reach launched one_call
unfolding advance_main start_grpc new_logger act
one_call-Reach =
    next
      (next
        (quiet (quiet (quiet listening_on-Reach refl refl refl refl) refl refl refl refl) refl refl
          refl refl)
        (grpc_starts refl refl))
      (rpc_begins refl (inl refl) refl)

told_to_stop-Reach : Reach launched told_to_stop
unfolding advance_main start_grpc new_logger act
told_to_stop-Reach =
    moves
      (moves (moves one_call-Reach refl refl (λ q. absurd (ground arith)) refl) refl refl
        (λ q. absurd (ground arith)) refl)
      refl refl (λ q. absurd (ground arith)) refl

done-Reach : Reach launched done
unfolding advance_main start_grpc new_logger act
done-Reach =
    quiet (quiet (next told_to_stop-Reach (rpc_ends 0 refl refl)) refl refl refl refl) refl refl
      refl refl

Reach-closed_example :
    (done.database ≡ closed → (done.http_shut ≡ true) × (done.grpc ≡ stopped) × (done.active ≡ 0))
    × (1 ≤ done.active → done.database ≡ opened)
Reach-closed_example = Reach-closed done done-Reach

-- It is at the end of the shutdown.
done_is_closed : done.database ≡ closed
unfolding advance_main start_grpc new_logger act
done_is_closed = refl

-- There is no database: `main` has written the line and is about to return.
abbrev refused : Server
refused =
    let s = moved (moved (moved (moved launched))) in
    let t = advance_main s.main (some (new_error "no database")) s in spoken t.todo t

abbrev returned : Server
returned = act returns [] refused

returned-Reach : Reach launched returned
unfolding advance_main new_logger act
returned-Reach =
    next
      (spoken-Reach _
        (next
          (quiet
            (quiet (quiet (quiet here refl refl refl refl) refl refl refl refl) refl refl refl refl)
            refl refl refl refl)
          (main_moves (some (new_error "no database")) refl refl (λ q. refl)))
        refl refl)
      (main_acts returns [] refl refl)

Reach-exit_code_example :
    ((◌≡◌ {A = ℕ} 0 0) × ((returned.database ≡ closed) ⊎ (returned.grpc_serve ≡ absent)))
    ⊎ ((◌≡◌ {A = ℕ} 0 1) × (has_fatal returned.logged ≡ true))
unfolding advance_main new_logger act
Reach-exit_code_example = Reach-exit_code returned 0 returned-Reach refl
