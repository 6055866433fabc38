-- ===== src/Db/Connection.antt =====
-- internal/db/connection.go: the address of the database and how a connection is opened. The environment,
-- `sql.Open` and the calls on the pool are parameters.
use text.Mathlib.Text.{◌==◌}
use vector_sync.Base.{ℕ, String, ◌∷◌, ◌++◌, if◌then◌else◌}
use vector_sync.Base.Text.{Bytes, codes}
use vector_sync.Base.Exec.{Exec, pure, ◌>>=◌, ◌>>◌}

-- The calls of database/sql; a duration is in minutes.
pub record Pool (C W : Type 0) : Type 0 where
  pub open_url : Bytes → Exec W C
  pub set_max_open_conns : C → ℕ → W → W
  pub set_max_idle_conns : C → ℕ → W → W
  pub set_conn_max_lifetime : C → ℕ → W → W
  pub set_conn_max_idle_time : C → ℕ → W → W
  pub ping : C → Exec W (Unit {0})

-- `if value == "" { value = default }`
abbrev pub or_else : String → String → String
or_else default value = if value == "" then default else value

module _ (getenv : String → String) where
  -- The address from its parts; none of them is escaped.
  unfoldable pub built_url : Bytes
  built_url =
      codes "postgres://"
      ++ (codes (getenv "DB_USER")
          ++ (b':'
              ∷ (codes (getenv "DB_PASSWORD")
                  ++ (b'@'
                      ∷ (codes (or_else "localhost" (getenv "DB_HOST"))
                          ++ (b':'
                              ∷ (codes (or_else "5432" (getenv "DB_PORT"))
                                  ++ (b'/'
                                      ∷ (codes (getenv "DB_NAME")
                                          ++ codes "?sslmode=disable")))))))))

  -- `DB_URL` goes before the parts.
  unfoldable pub database_url : Bytes
  database_url = if getenv "DB_URL" == "" then built_url else codes (getenv "DB_URL")

  -- `Connect`
  unfoldable pub connect : {C W : Type 0} → Pool C W → Exec W C
  connect pool = do
    db ← pool.open_url database_url
    λ w. (pool.ping db >> pure db) (
        pool.set_conn_max_idle_time db 5 (
          pool.set_conn_max_lifetime db 10
            (pool.set_max_idle_conns db 25 (pool.set_max_open_conns db 50 w))))
