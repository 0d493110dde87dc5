-- ===== src/Server.antt =====
-- internal/app/app.go: the configured services behind the routes.
pub mod Decoded
pub mod Reads
pub mod Public
pub mod Standing
pub mod Strangers
pub mod Reached
use wallet_service.Prelude.{
  ℕ, ℤ, pos_part, Text, text_eq, String, List, [], ◌∷◌, Option, none, some, if◌then◌else◌,
}
use wallet_service.Prog.{Prog, ret, panic}
use wallet_service.Dto.{Json}
use wallet_service.Strconv.{parse_int}
use wallet_service.Observe.Ring.{Ring, served}
use wallet_service.Transfer.{TransferService}
use wallet_service.Auth.{Libraries, AuthService}
use wallet_service.Config.{Config}
use wallet_service.Guarantees.Accounts.{beside}
use wallet_service.Handlers.{lines_body, Response, Request, App, Handler}
use wallet_service.Handlers.Transfers.{create_transfer, get_transfer, claim_transfer}
use wallet_service.Handlers.Accounts.{create_account, get_my_account, handle_signup, handle_login}
use wallet_service.Handlers.Health.{index, healthz, readyz}
use wallet_service.Api.{Routes, new_router}

-- What the code calls that is not its own: bcrypt, jwt and uuid, SHA-256, the scanner of
-- encoding/json, PostgreSQL's interval of a duration's Seconds, in microseconds, and the page of the
-- metrics library. `ring` is the log as it stands when the request is served.
pub record Environs : Type 0 where
  pub libraries : Libraries
  pub sha256 : Text → Text
  pub scan_json : ℕ → Text → Option Json
  pub interval : ℤ → ℕ
  pub metrics_page : Request → Response
  pub ring : Request → Ring

-- NewTransferService, NewAuthService and NewWalletService, as NewHandler calls them.
abbrev pub new_transfer_service : Environs → Config → TransferService
new_transfer_service x cfg = record {
  seed_paise = cfg.initial_balance_paise;
  claim_window = x.interval cfg.claim_window;
  uuid_string = x.libraries.uuid_string;
  sha256 = x.sha256;
}

abbrev pub new_auth_service : Environs → Config → AuthService
new_auth_service x cfg = record {
  libraries = x.libraries;
  secret = cfg.jwt_secret;
  token_ttl = pos_part cfg.token_ttl;
}

abbrev pub new_app : Environs → Config → App
new_app x cfg = record {
  auth = new_auth_service x cfg;
  wallets = record {
    seed_paise = cfg.initial_balance_paise;
    claim_window = x.interval cfg.claim_window;
  };
  transfers = new_transfer_service x cfg;
  scan_json = x.scan_json;
}

-- Ring.ServeHTTP, where the limit is read by strconv.Atoi.
abbrev pub atoi : Text → Option ℤ
atoi v = if text_eq v [] then none else parse_int v

abbrev pub lines_response : Option (List Text) → Prog Response
lines_response none = panic
lines_response (some lines) = ret (record {
  status = 200;
  headers = ("Content-Type", "application/x-ndjson") ∷ [];
  body = lines_body lines;
})

abbrev pub serve_logs : Ring → Request → Prog Response
serve_logs ring r = lines_response (served (atoi r.limit) ring)

abbrev pub routes : Environs → App → Routes
routes x app = record {
  signup = handle_signup app;
  login = handle_login app;
  create_account = create_account app;
  get_my_account = get_my_account app;
  create_transfer = create_transfer app;
  get_transfer = get_transfer app;
  claim_transfer = claim_transfer app;
  index = index;
  healthz = healthz;
  readyz = readyz;
  metrics = λ r. ret (x.metrics_page r);
  logs = λ r. serve_logs (x.ring r) r;
}

-- NewHandler
unfoldable pub new_handler : Environs → Config → Handler
new_handler x cfg = new_router (routes x (new_app x cfg)) (new_auth_service x cfg)
