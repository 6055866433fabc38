-- ===== src/Server.antt =====
-- cmd/vector-sync/main.go, with `NewLogger` of internal/logger/logger.go: the start of the program, the
-- goroutines that it starts and its shutdown, as steps in any order that the scheduler and the
-- libraries may choose. A call of a library is given by what it returns: `none` for nil. Each line of the
-- log, each exit and the `return` of `main` is a step of its own, so other goroutines come in between.
-- `httpServer.Shutdown` has a timeout and then returns an error; `GracefulStop` takes no new RPC and
-- returns when none runs; an RPC may end at any time or never; `os.Exit` ends every goroutine.
pub mod Shutdown
use vector_sync.Base.{
  ℕ, suc, ◌+◌, ◌≤◌, String, ◌≡◌, ◌⊎◌, Bool, true, false, List, [], ◌∷◌, Option, none, some,
}
use vector_sync.Base.Exec.{Error}
use vector_sync.Logger.{
  Level, info_level, warn_level, error_level, fatal_level, Line, Made, logger, exits, new_logger,
}

-- The three services that are registered with the gateway, in this order.
pub data Gateway : Type 0 where
  collection_gateway document_gateway health_gateway : Gateway

-- The packages that call `logger.NewLogger` in a variable, before `main`.
pub data Package : Type 0 where
  db_package main_package : Package

-- The call of a library that `main` is at. Before it, `creating` and `opening` are the calls of
-- `NewLogger` for the directory and the file.
pub data Stage : Type 0 where
  creating opening : Package → Stage
  connecting listening : Stage
  registering : Gateway → Stage
  waiting shutting stopping draining closing returning : Stage

-- What `main` does between two calls: it writes a line, leaves by `os.Exit`, or returns.
pub data Action : Type 0 where
  says : Line → Action
  leaves : ℕ → Action
  returns : Action

-- A goroutine that `main` starts; one that is exiting has written the line of `Fatalf`.
pub data Routine : Type 0 where
  absent spawned running exiting ended : Routine

pub data Database : Type 0 where
  unopened opened closed : Database

-- `grpcServer`: as made, told to stop, or stopped.
pub data Grpc : Type 0 where
  fresh stopped_soon stopped : Grpc

pub record Server : Type 0 where
  pub main : Stage
  -- what `main` has to do before it makes the call that it is at
  pub todo : List Action
  pub database : Database
  pub warming : Routine
  pub grpc_serve : Routine
  pub grpc : Grpc
  pub http_serve : Routine
  pub http_shut : Bool
  -- the RPCs that run
  pub active : ℕ
  pub logged : List Line
  pub exit_code : Option ℕ

abbrev pub line : Level → String → Option Error → Line
line level text reason = record { level = level; text = text; reason = reason }

abbrev pub say : Level → String → Option Error → Server → Server
say level text reason s = record s { logged = line level text reason ∷ s.logged }

abbrev info : String → Action
info text = says (line info_level text none)

-- `main` is at its next call, with what it does before it.
abbrev at_stage : Stage → List Action → Server → Server
at_stage x actions s = record s { main = x; todo = actions }

-- `main` does not reach the call that comes next.
abbrev stop_with : List Action → Server → Server
stop_with actions s = record s { todo = actions }

-- `log.Fatalf` of `main`: it writes, and then it exits.
abbrev pub fatal : String → Error → Server → Server
fatal text e = stop_with (says (line fatal_level text (some e)) ∷ leaves 1 ∷ [])

-- Behind a call of `NewLogger`, which may end the process.
abbrev after_logger : Made → (Server → Server) → Server → Server
after_logger (logger settings) go = go
after_logger (exits written) go = stop_with (says written ∷ leaves 1 ∷ [])

-- One of the two lines on how a call of the shutdown went.
abbrev pub outcome : String → String → Option Error → Action
outcome failed done none = info done
outcome failed done (some e) = says (line error_level failed (some e))

-- What the call that `main` is at changes, by what it returns, and what `main` does behind it.
unfoldable pub advance_main : Stage → Option Error → Server → Server
advance_main (creating p) e s = after_logger (new_logger e none) (at_stage (opening p) []) s
advance_main (opening db_package) e s =
    after_logger (new_logger none e) (at_stage (creating main_package) []) s
advance_main (opening main_package) e s =
    after_logger (new_logger none e) (at_stage connecting (info "Connecting to database..." ∷ [])) s
advance_main connecting (some e) s =
    stop_with (says (line error_level "Failed to connect to database" (some e)) ∷ returns ∷ []) s
advance_main connecting none s = record s { main = listening; database = opened; warming = spawned }
advance_main listening (some e) s =
    stop_with (says (line error_level "Failed to listen on port 6309" (some e)) ∷ returns ∷ []) s
advance_main listening none s = record s {
  main = registering collection_gateway;
  grpc_serve = spawned;
}
advance_main (registering collection_gateway) (some e) s =
    fatal "Failed to register collection gateway" e s
advance_main (registering collection_gateway) none s = record s {
  main = registering document_gateway;
}
advance_main (registering document_gateway) (some e) s =
    fatal "Failed to register document gateway" e s
advance_main (registering document_gateway) none s = record s { main = registering health_gateway }
advance_main (registering health_gateway) (some e) s = fatal "Failed to register health gateway" e s
advance_main (registering health_gateway) none s = record s { main = waiting; http_serve = spawned }
advance_main waiting e s =
    at_stage shutting
      (info "Received signal, initiating graceful shutdown..."
        ∷ info "Shutting down HTTP gateway..."
        ∷ [])
      s
advance_main shutting e s =
    at_stage stopping
      (outcome "HTTP server shutdown error" "HTTP gateway shutdown complete" e
        ∷ info "Shutting down gRPC server..."
        ∷ [])
      (record s { http_shut = true })
advance_main stopping e s = record s { main = draining; grpc = stopped_soon }
advance_main draining e s =
    at_stage closing
      (info "gRPC server shutdown complete" ∷ info "Closing database connection..." ∷ [])
      (record s { grpc = stopped })
advance_main closing e s =
    at_stage returning
      (outcome "Database close error" "Database connection closed" e
        ∷ info "VectorSync shutdown complete"
        ∷ returns
        ∷ [])
      (record s { database = closed })
advance_main returning e s = s

-- What `main` does between two calls, an action at a time.
unfoldable pub act : Action → List Action → Server → Server
act (says written) actions s = record s { logged = written ∷ s.logged; todo = actions }
act (leaves code) actions s = record s { exit_code = some code; todo = actions }
act returns actions s = record s { exit_code = some 0; todo = actions }

-- The end of the goroutine that warms the cache.
unfoldable pub end_warming : Option Error → Server → Server
end_warming none s =
    say info_level "Collection cache warmed successfully" none (record s { warming = ended })
end_warming (some e) s =
    say warn_level "Cache warm failed (will be populated on first access)" (some e)
      (record s { warming = ended })

-- The goroutines of the two servers: the line before the call, and what is done with an error. An
-- `ErrServerClosed` of the HTTP server is none, any other error is fatal.
unfoldable pub start_grpc : Server → Server
start_grpc s =
    say info_level "VectorSync gRPC server started on :6309" none
      (record s { grpc_serve = running })

unfoldable pub end_grpc : Option Error → Server → Server
end_grpc none s = record s { grpc_serve = ended }
end_grpc (some e) s =
    say error_level "Failed to serve gRPC" (some e) (record s { grpc_serve = ended })

unfoldable pub start_http : Server → Server
start_http s =
    say info_level "VectorSync HTTP gateway started on :8080" none
      (record s { http_serve = running })

unfoldable pub end_http : Option Error → Server → Server
end_http none s = record s { http_serve = ended }
end_http (some e) s =
    say fatal_level "Failed to serve HTTP gateway" (some e) (record s { http_serve = exiting })

unfoldable pub exit_http : Server → Server
exit_http s = record s { exit_code = some 1 }

-- One step of the process, which has not ended.
pub data Step (s : Server) : Server → Type 0 where
  -- the call that `main` is at returns; `GracefulStop` does when no RPC runs
  main_moves :
      (e : Option Error)
      → s.exit_code ≡ none
      → s.todo ≡ []
      → (s.main ≡ draining → s.active ≡ 0)
      → Step s (advance_main s.main e s)
  main_acts :
      (a : Action) (actions : List Action)
      → s.exit_code ≡ none
      → s.todo ≡ a ∷ actions
      → Step s (act a actions s)
  warming_ends :
      (e : Option Error) → s.exit_code ≡ none → s.warming ≡ spawned → Step s (end_warming e s)
  grpc_starts : s.exit_code ≡ none → s.grpc_serve ≡ spawned → Step s (start_grpc s)
  grpc_ends :
      (e : Option Error) → s.exit_code ≡ none → s.grpc_serve ≡ running → Step s (end_grpc e s)
  http_starts : s.exit_code ≡ none → s.http_serve ≡ spawned → Step s (start_http s)
  http_ends :
      (e : Option Error) → s.exit_code ≡ none → s.http_serve ≡ running → Step s (end_http e s)
  http_exits : s.exit_code ≡ none → s.http_serve ≡ exiting → Step s (exit_http s)
  -- connections outlive an error of `Serve`
  rpc_begins :
      s.exit_code ≡ none
      → (s.grpc_serve ≡ running) ⊎ (s.grpc_serve ≡ ended)
      → s.grpc ≡ fresh
      → Step s (record s { active = s.active + 1 })
  rpc_ends : (n : ℕ) → s.exit_code ≡ none → s.active ≡ suc n → Step s (record s { active = n })

abbrev pub launched : Server
launched = record {
  main = creating db_package;
  todo = [];
  database = unopened;
  warming = absent;
  grpc_serve = absent;
  grpc = fresh;
  http_serve = absent;
  http_shut = false;
  active = 0;
  logged = [];
  exit_code = none;
}

pub data Reach (s : Server) : Server → Type 0 where
  here : Reach s s
  next : {t u : Server} → Reach s t → Step t u → Reach s u
