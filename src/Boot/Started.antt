-- ===== src/Boot/Started.antt =====
-- What has been done when the server starts to listen, and what is done before the process ends.
use wallet_service.Prelude.{
  Text, Option, none, some, List, [], ◌∷◌, ◌++◌, All, ◌≡◌, refl, ◌⊎◌, inl, inr,
}
use wallet_service.Errors.{Error, wrapped}
use wallet_service.Prog.{Result, ok, err}
use wallet_service.Config.{Config, load}
use wallet_service.Config.Loaded.{IsUsable, load-IsUsable}
use wallet_service.Boot.Address.{IsRewritten, rewrite_url-IsRewritten}
use wallet_service.Boot.{
  Host, Up, applied, no_change, up_failed, up_result, early, late, last, never, Ending,
  listen_failed, signalled, Step, migrations_applied, server_started, pool_closed, schemes,
  rewrite_url, migrate, connect, serve_until, after_close, connected, migrated, configured,
  run_server,
}

-- Whether a step is among those that were done.
abbrev pub Starts : List Step → Type 0
Starts [] = ⊥
Starts (server_started port ∷ steps) = Unit
Starts (_ ∷ steps) = Starts steps

-- What is listened on is a configured port.
abbrev pub IsOn : Text → Step → Type 0
IsOn port (server_started p) = p ≡ port
IsOn port _ = Unit

-- Every library call of Migrate went well; that there was nothing to apply is well too.
pub record HasMigrated (m : Host) (database_url : Text) : Type 0 where
  pub source : m.open_source ≡ none
  pub url : Text
  pub address : IsRewritten database_url url
  pub database : m.new_migrate url ≡ none
  pub up : (m.up ≡ applied) ⊎ (m.up ≡ no_change)

-- The pool was made, from an address that can be read.
pub record HasPool (m : Host) (database_url : Text) : Type 0 where
  pub parsed : m.parse_config database_url ≡ none
  pub made : m.new_pool database_url ≡ none

-- A run that served. After the pool is closed, nothing is done but the goroutine's late log record.
pub record Sound (m : Host) (steps : List Step) : Type 0 where
  pub cfg : Config
  pub loaded : load m.env m.parse_duration ≡ ok cfg
  pub usable : IsUsable cfg
  pub has_migrated : HasMigrated m cfg.database_url
  pub has_pool : HasPool m cfg.database_url
  pub served : List Step
  pub closed : List Step
  pub all : steps ≡ migrations_applied ∷ served ++ pool_closed ∷ closed
  pub ports : All (IsOn cfg.port) (served ++ closed)
  pub nothing_else : (closed ≡ []) ⊎ (closed ≡ server_started cfg.port ∷ [])

module _ (m : Host) (database_url : Text) where
  up-HasMigrated : (u : Up) → m.up ≡ u → up_result u ≡ ok tt → (m.up ≡ applied) ⊎ (m.up ≡ no_change)
  up-HasMigrated applied e h = inl e
  up-HasMigrated no_change e h = inr e
  up-HasMigrated (up_failed x) e h = cc

  migrate-HasMigrated : migrate m database_url ≡ ok tt → HasMigrated m database_url
  unfolding migrate
  migrate-HasMigrated h =
      source_cases m.open_source (m.new_migrate (rewrite_url schemes database_url)) refl refl h
    where
      source_cases :
          (s d : Option Error)
          → m.open_source ≡ s
          → m.new_migrate (rewrite_url schemes database_url) ≡ d
          → elim s [ some e ↦ err e | none ↦ elim d [ some e ↦ err e | none ↦ up_result m.up ] ]
            ≡ ok tt
          → HasMigrated m database_url
      source_cases (some e) d p q h = cc
      source_cases none (some e) p q h = cc
      source_cases none none p q h = record {
        source = p;
        url = rewrite_url schemes database_url;
        address = rewrite_url-IsRewritten database_url;
        database = q;
        up = up-HasMigrated m.up refl h;
      }

  abbrev pool_result : Option Error → Option Error → Result (Unit {0})
  pool_result c p = elim c [
    | some e ↦ err (wrapped "parse DATABASE_URL" e)
    | none ↦ elim p [ some e ↦ err (wrapped "connect database" e) | none ↦ ok tt ]
  ]

  connect-HasPool : connect m database_url ≡ ok tt → HasPool m database_url
  unfolding connect
  connect-HasPool h = pool_cases (m.parse_config database_url) (m.new_pool database_url) refl refl h
    where
      pool_cases :
          (c p : Option Error)
          → m.parse_config database_url ≡ c
          → m.new_pool database_url ≡ p
          → pool_result c p ≡ ok tt
          → HasPool m database_url
      pool_cases (some e) p g k h = cc
      pool_cases none (some e) g k h = cc
      pool_cases none none g k h = record { parsed = g; made = k }

module _ (m : Host) where
  rest :
      (cfg : Config) (e : Ending)
      → All (IsOn cfg.port) ((serve_until e cfg).0 ++ after_close e cfg)
        × ((after_close e cfg ≡ []) ⊎ (after_close e cfg ≡ server_started cfg.port ∷ []))
  rest cfg (listen_failed e) = ((refl, tt), inl refl)
  rest cfg (signalled early e) = ((refl, (tt, tt)), inl refl)
  rest cfg (signalled late e) = ((tt, (refl, tt)), inl refl)
  rest cfg (signalled last e) = ((tt, (refl, tt)), inr refl)
  rest cfg (signalled never e) = ((tt, tt), inl refl)

  connected-Sound :
      (cfg : Config)
      → load m.env m.parse_duration ≡ ok cfg
      → migrate m cfg.database_url ≡ ok tt
      → (r : Result (Unit {0})) → connect m cfg.database_url ≡ r
      → Starts (connected m cfg r).0
      → Sound m (migrations_applied ∷ (connected m cfg r).0)
  connected-Sound cfg l g (err e) c h = absurd h
  connected-Sound cfg l g (ok tt) c h = record {
    cfg = cfg;
    loaded = l;
    usable = load-IsUsable m.env m.parse_duration cfg l;
    has_migrated = migrate-HasMigrated m cfg.database_url g;
    has_pool = connect-HasPool m cfg.database_url c;
    served = (serve_until m.ending cfg).0;
    closed = after_close m.ending cfg;
    all = refl;
    ports = (rest cfg m.ending).0;
    nothing_else = (rest cfg m.ending).1;
  }

  migrated-Sound :
      (cfg : Config)
      → load m.env m.parse_duration ≡ ok cfg
      → (r : Result (Unit {0})) → migrate m cfg.database_url ≡ r
      → Starts (migrated m cfg r).0
      → Sound m (migrated m cfg r).0
  migrated-Sound cfg l (err e) g h = absurd h
  migrated-Sound cfg l (ok tt) g h = connected-Sound cfg l g (connect m cfg.database_url) refl h

  configured-Sound :
      (r : Result Config)
      → load m.env m.parse_duration ≡ r
      → Starts (configured m r).0
      → Sound m (configured m r).0
  configured-Sound (err e) l h = absurd h
  configured-Sound (ok cfg) l h = migrated-Sound cfg l (migrate m cfg.database_url) refl h

  -- If the process gets to listen at all, then on the port of a usable configuration that Load
  -- accepted, after migrate has opened its source and the configuration's database, at its address
  -- with the scheme of migrate's driver, and has applied what there was to apply, and after pgx has
  -- read the address and made the pool; and the pool is closed before the process ends, after
  -- which nothing is done but to write the log record that announces the server, if the signal came
  -- before it.
  pub run_server-Sound : Starts (run_server m).0 → Sound m (run_server m).0
  unfolding run_server
  run_server-Sound h = configured-Sound (load m.env m.parse_duration) refl h
