-- ===== src/Tests/Server.antt =====
-- The theorems on the configuration, the routes and the server, from an environment on.
use wallet_service.Prelude.{
  none, ◌/◌, ◌≤◌, pos_part, ℤ, pos, Text, text, text_eq, List, Option, some, [], ◌∷◌, ◌≡◌, refl,
  if◌then◌else◌,
}
use wallet_service.Models.{Uuid}
use wallet_service.Observe.{Counter}
use wallet_service.Observe.Ring.{new_ring}
use wallet_service.Sql.Tables.{find_wallet}
use wallet_service.Sql.Tables.Balances.{balance?, total}
use wallet_service.Prog.{Outcome, ok, run}
use wallet_service.Dto.{members}
use wallet_service.Dto.Filled.{transfer_members}
use wallet_service.Strconv.{parse_int, digits}
use wallet_service.Config.{Config, Environment, load, load_balance, load_window}
use wallet_service.Config.Loaded.{IsUsable, load-IsUsable}
use wallet_service.Guarantees.{IsStanding}
use wallet_service.Handlers.{Response, Request, plain_body}
use wallet_service.Handlers.Health.{healthz}
use wallet_service.Api.{authenticate, cut_prefix, table}
use wallet_service.Api.Gate.{Gated, Identified, authenticate-Gated}
use wallet_service.Api.Mux.{fitting, fitting-table}
use wallet_service.Server.{
  Environs, new_transfer_service, new_auth_service, new_app, routes, new_handler,
}
use wallet_service.Server.Standing.{new_handler-answers}
use wallet_service.Server.Strangers.{Unmoved, new_handler-Unmoved}
use wallet_service.Server.Reached.{started, served, served-IsStanding}
use wallet_service.Boot.{
  Host, no_change, signalled, late, rewrite_url, migrate, connect, run_server,
}
use wallet_service.Boot.Started.{Starts, Sound, run_server-Sound}
use wallet_service.Tests.Data.{empty}
use wallet_service.Tests.Libraries.{libraries, auth}
use wallet_service.Tests.Handlers.{by_alice}

-- The seed is 1000 paise, and the window is the one that is set.
abbrev env : Environment
env key =
    if text_eq key (text "DATABASE_URL")
    then text "postgres"
    else if text_eq key (text "JWT_SECRET")
    then text "0123456789abcdef"
    else if text_eq key (text "INITIAL_BALANCE_PAISE")
    then text "1000"
    else if text_eq key (text "CLAIM_WINDOW")
    then text "100us"
    else []

-- Every text is taken for 100 microseconds.
abbrev parse_duration : Text → Option ℤ
parse_duration s = some (pos 100000)

abbrev cfg : Config
cfg = record {
  database_url = text "postgres";
  jwt_secret = text "0123456789abcdef";
  port = text "8080";
  initial_balance_paise = pos 1000;
  token_ttl = pos 86400000000000;
  db_timeout = pos 5000000000;
  claim_window = pos 100000;
}

loaded : load env parse_duration ≡ ok cfg
unfolding load load_balance load_window parse_int digits text_eq
loaded = refl

abbrev page : Response
page = record { status = 200; headers = []; body = plain_body "" }

-- A body is the name of who is paid 100 paise.
abbrev environs : Environs
environs = record {
  libraries = libraries;
  sha256 = λ s. s;
  scan_json = λ n body. some (
      members (
        transfer_members
          (record { to_user = body; amount_paise = pos 100; idempotency_key = text "k" })));
  interval = λ z. pos_part z / 1000;
  metrics_page = λ r. page;
  ring = λ r. new_ring 1000;
}

load-IsUsable_example : IsUsable cfg
load-IsUsable_example = load-IsUsable env parse_duration cfg loaded

-- POST /transfers with a token that names nobody, and without a token.
abbrev forged : Request
forged = record by_alice { authorization = text "Bearer x" }

authenticate-Gated_example : Gated auth healthz forged (authenticate auth healthz forged)
authenticate-Gated_example = authenticate-Gated auth healthz forged

fitting-table_example :
    fitting (table (routes environs (new_app environs cfg)) (authenticate auth)) forged ≤ 1
fitting-table_example =
    fitting-table (routes environs (new_app environs cfg)) (authenticate auth) forged

empty-Stands : IsStanding (new_transfer_service environs cfg) empty
unfolding balance? find_wallet total
empty-Stands = record {
  closed = refl;
  sound = record { funded = λ id b e. cc; balances = λ id b e. cc; rows = tt };
  conserved = refl;
}

new_handler-answers_example :
    (resp : Response) × ((run (new_handler environs cfg forged) empty).0 ≡ Outcome.ok resp)
    × IsStanding (new_transfer_service environs cfg) (run (new_handler environs cfg forged) empty).1
    × ((ms : List Counter) × ((run (new_handler environs cfg forged) empty).1.metrics
          ≡ Counter.http_requests (text "unmatched") (text "POST") resp.status ∷ ms))
new_handler-answers_example =
    new_handler-answers environs cfg (load-IsUsable env parse_duration cfg loaded) forged empty
      empty-Stands refl

nobody : (id : Uuid) → ¬ Identified (new_auth_service environs cfg) by_alice id
unfolding cut_prefix
nobody id h = absurd (cc (h.carried))

new_handler-Unmoved_example :
    (resp : Response) × ((run (new_handler environs cfg by_alice) empty).0 ≡ Outcome.ok resp)
    × Unmoved empty.db (run (new_handler environs cfg by_alice) empty).1
new_handler-Unmoved_example = new_handler-Unmoved environs cfg by_alice empty refl nobody

served-IsStanding_example :
    IsStanding (new_transfer_service environs cfg) (run (new_handler environs cfg forged) empty).1
served-IsStanding_example =
    served-IsStanding env parse_duration environs cfg loaded _
      (served forged empty (started empty refl refl refl))

-- Everything goes well, and a signal ends the run.
abbrev host : Host
host = record {
  env = env;
  parse_duration = parse_duration;
  open_source = none;
  new_migrate = λ url. none;
  up = no_change;
  parse_config = λ url. none;
  new_pool = λ url. none;
  ending = signalled late none;
}

listens : Starts (run_server host).0
unfolding run_server load load_balance load_window parse_int digits text_eq migrate connect
    rewrite_url cut_prefix
listens = tt

run_server-Sound_example : Sound host (run_server host).0
run_server-Sound_example = run_server-Sound host listens
