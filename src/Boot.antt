-- ===== src/Boot.antt =====
-- cmd/server/main.go and internal/db/db.go: the start and the end of the process. What migrate, pgx
-- and net/http report is an argument.
pub mod Address
pub mod Started
use wallet_service.Prelude.{
  ℕ, ℤ, Text, text, Bool, ◌==◌, List, [], ◌∷◌, ◌++◌, Option, none, some, if◌then◌else◌,
}
use wallet_service.Errors.{Error, wrapped}
use wallet_service.Prog.{Result, ok, err}
use wallet_service.Config.{Environment, Config, get_env, load}
use wallet_service.Api.{cut_prefix}

-- What `m.Up()` reports.
pub data Up : Type 0 where
  applied no_change : Up
  up_failed : Error → Up

-- When the goroutine that listens gets to its log record, if a signal ends the run: before the
-- signal is seen, between that and the closing of the pool, after that, or never.
pub data Turn : Type 0 where
  early late last never : Turn

-- What ends the select of run: an error of ListenAndServe, or a signal, with what Shutdown reports.
pub data Ending : Type 0 where
  listen_failed : Error → Ending
  signalled : Turn → Option Error → Ending

pub record Host : Type 0 where
  pub env : Environment
  pub parse_duration : Text → Option ℤ
  pub open_source : Option Error
  pub new_migrate : Text → Option Error
  pub up : Up
  pub parse_config : Text → Option Error
  pub new_pool : Text → Option Error
  pub ending : Ending

-- What a run does, in order.
pub data Step : Type 0 where
  migrations_applied : Step
  server_started : Text → Step
  shutting_down : Step
  pool_closed : Step

-- The loop of Migrate over the schemes.
unfoldable pub rewrite_url : List Text → Text → Text
rewrite_url [] url = url
rewrite_url (prefix ∷ prefixes) url =
    let next = rewrite_url prefixes url in
    elim (cut_prefix url prefix) [ none ↦ next | some rest ↦ text "pgx5://" ++ rest ]

abbrev pub schemes : List Text
schemes = text "postgresql://" ∷ text "postgres://" ∷ []

abbrev pub up_result : Up → Result (Unit {0})
up_result applied = ok tt
up_result no_change = ok tt
up_result (up_failed e) = err e

-- Migrate
unfoldable pub migrate : Host → Text → Result (Unit {0})
migrate m database_url = elim m.open_source [
  | some e ↦ err e
  | none ↦ elim (m.new_migrate (rewrite_url schemes database_url)) [
    | some e ↦ err e
    | none ↦ up_result m.up
  ]
]

-- Connect
unfoldable pub connect : Host → Text → Result (Unit {0})
connect m database_url = elim (m.parse_config database_url) [
  | some e ↦ err (wrapped "parse DATABASE_URL" e)
  | none ↦ elim (m.new_pool database_url) [
    | some e ↦ err (wrapped "connect database" e)
    | none ↦ ok tt
  ]
]

-- The end of run, before the deferred `pool.Close()`.
abbrev pub serve_until : Ending → Config → List Step × Option Error
serve_until (listen_failed e) cfg = (server_started cfg.port ∷ [], some e)
serve_until (signalled early e) cfg = (server_started cfg.port ∷ shutting_down ∷ [], e)
serve_until (signalled late e) cfg = (shutting_down ∷ server_started cfg.port ∷ [], e)
serve_until (signalled last e) cfg = (shutting_down ∷ [], e)
serve_until (signalled never e) cfg = (shutting_down ∷ [], e)

-- What the goroutine still does after `pool.Close()`.
abbrev pub after_close : Ending → Config → List Step
after_close (listen_failed e) cfg = []
after_close (signalled last e) cfg = server_started cfg.port ∷ []
after_close (signalled early e) cfg = []
after_close (signalled late e) cfg = []
after_close (signalled never e) cfg = []

abbrev pub connected : Host → Config → Result (Unit {0}) → List Step × Option Error
connected m cfg (err e) = ([], some e)
connected m cfg (ok _) =
    let (steps, e) = serve_until m.ending cfg in
    (steps ++ pool_closed ∷ after_close m.ending cfg, e)

abbrev pub migrated : Host → Config → Result (Unit {0}) → List Step × Option Error
migrated m cfg (err e) = ([], some (wrapped "migrations" e))
migrated m cfg (ok _) =
    let (steps, e) = connected m cfg (connect m cfg.database_url) in (migrations_applied ∷ steps, e)

abbrev pub configured : Host → Result Config → List Step × Option Error
configured m (err e) = ([], some e)
configured m (ok cfg) = migrated m cfg (migrate m cfg.database_url)

-- run
unfoldable pub run_server : Host → List Step × Option Error
run_server m = configured m (load m.env m.parse_duration)

-- runHealthcheck, where `get` is the status that the client gets from the port's /healthz.
unfoldable pub run_healthcheck : Environment → (Text → Option ℕ) → ℕ
run_healthcheck env get = elim (get (get_env env (text "PORT") (text "8080"))) [
  | none ↦ 1
  | some status ↦ if status == 200 then 0 else 1
]

-- main: the exit code.
unfoldable pub main : Bool → Host → (Text → Option ℕ) → ℕ
main healthcheck m get =
    let probe = run_healthcheck m.env get in
    if healthcheck then probe else elim (run_server m).1 [ none ↦ 0 | some _ ↦ 1 ]
