-- ===== src/Config.antt =====
-- internal/config/config.go. `time.ParseDuration`, which computes with floats, is an argument, and so
-- is the environment, empty for a variable that is not set. Durations are in nanoseconds.
pub mod Loaded
use wallet_service.Prelude.{
  ℕ, ◌*◌, ℤ, pos, ltb_ℤ, leb_ℤ, Text, text, text_eq, length, ltb, [], ◌∷◌, Bool, Option, none, some,
  if◌then◌else◌,
}
use wallet_service.Errors.{external}
use wallet_service.Prog.{Result, ok, err}
use wallet_service.Strconv.{parse_int}

pub record Config : Type 0 where
  pub database_url : Text
  pub jwt_secret : Text
  pub port : Text
  pub initial_balance_paise : ℤ
  pub token_ttl : ℤ
  pub db_timeout : ℤ
  pub claim_window : ℤ

abbrev pub Environment : Type 0
Environment = Text → Text

-- getEnv
abbrev pub get_env : Environment → Text → Text → Text
get_env env key fallback = if text_eq (env key) [] then fallback else env key

abbrev pub second : ℕ
second = 1000000000

-- The defaults at the start of Load.
abbrev pub defaults : Environment → Config
defaults env = record {
  database_url = [];
  jwt_secret = [];
  port = get_env env (text "PORT") (text "8080");
  initial_balance_paise = pos 100000;
  token_ttl = pos (24 * 3600 * second);
  db_timeout = pos (5 * second);
  claim_window = pos (24 * 3600 * second);
}

abbrev pub accepted_window : Config → Option ℤ → Result Config
accepted_window cfg none = err (external "CLAIM_WINDOW must be a positive duration (e.g. 24h)")
accepted_window cfg (some d) =
    if leb_ℤ d (pos 0)
    then err (external "CLAIM_WINDOW must be a positive duration (e.g. 24h)")
    else ok (record cfg { claim_window = d })

unfoldable pub load_window : Environment → (Text → Option ℤ) → Config → Result Config
load_window env parse_duration cfg =
    if text_eq (env (text "CLAIM_WINDOW")) []
    then ok cfg
    else accepted_window cfg (parse_duration (env (text "CLAIM_WINDOW")))

abbrev pub accepted_balance : Environment → (Text → Option ℤ) → Config → Option ℤ → Result Config
accepted_balance env parse_duration cfg none =
    err (external "INITIAL_BALANCE_PAISE must be a non-negative integer")
accepted_balance env parse_duration cfg (some n) =
    if ltb_ℤ n (pos 0)
    then err (external "INITIAL_BALANCE_PAISE must be a non-negative integer")
    else load_window env parse_duration (record cfg { initial_balance_paise = n })

unfoldable pub load_balance : Environment → (Text → Option ℤ) → Config → Result Config
load_balance env parse_duration cfg =
    if text_eq (env (text "INITIAL_BALANCE_PAISE")) []
    then load_window env parse_duration cfg
    else accepted_balance env parse_duration cfg (parse_int (env (text "INITIAL_BALANCE_PAISE")))

-- Load. The value that a message quotes is left out.
unfoldable pub load : Environment → (Text → Option ℤ) → Result Config
load env parse_duration =
    if text_eq (env (text "DATABASE_URL")) []
    then err (external "DATABASE_URL is required")
    else if ltb (length (env (text "JWT_SECRET"))) 16
    then err (external "JWT_SECRET is required (min 16 chars)")
    else load_balance env parse_duration (record (defaults env) {
      database_url = env (text "DATABASE_URL");
      jwt_secret = env (text "JWT_SECRET");
    })
