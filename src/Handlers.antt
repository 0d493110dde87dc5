-- ===== src/Handlers.antt =====
-- internal/handlers: the requests and responses, and respond.go. A body is its DTO, before it is
-- printed as JSON.
pub mod Answered
pub mod Transfers
pub mod Accounts
pub mod Health
use wallet_service.Prelude.{
  ℕ, String, Text, ◌==◌, List, [], ◌∷◌, Bool, true, false, Option, none, some, if◌then◌else◌,
}
use wallet_service.Models.{Uuid}
use wallet_service.Observe.{Event}
use wallet_service.Dto.{
  SignupRequest, AuthResponse, AccountResponse, BalanceResponse, TransferRequest, TransferResponse,
  TransferDetails, ClaimResponse, ErrorResponse, Value, Json, decode_into,
}
use wallet_service.Prog.{Prog, ret, Effect, act, Result, ok, err, ◌>>=◌, ◌>>◌}
use wallet_service.Auth.{AuthService}
use wallet_service.Wallet.{WalletService}
use wallet_service.Transfer.{TransferService}
use wallet_service.Errors.{
  Error, errors_is, as_validation, username_taken, invalid_credentials, unknown_recipient,
  self_transfer, no_wallet, insufficient_funds, idempotency_conflict, claim_window_expired,
  not_found,
}

-- What is printed as the body.
pub data Body : Type 0 where
  error_body : ErrorResponse → Body
  auth_body : AuthResponse → Body
  account_body : AccountResponse → Body
  balance_body : BalanceResponse → Body
  transfer_body : TransferResponse → Body
  details_body : TransferDetails → Body
  claim_body : ClaimResponse → Body
  object_body : List (String × String) → Body
  index_body : String → String → List String → Body
  plain_body : String → Body
  lines_body : List Text → Body

pub record Response : Type 0 where
  pub status : ℕ
  pub headers : List (String × String)
  pub body : Body

-- What is read of a request: the segments of its path, the pattern and the path value `{id}` that
-- the mux sets on the request that it is given, the caller that the context holds, and the
-- Authorization header and the query's `limit`, empty if there is none. `now` and `salt` are what the
-- process's clock and bcrypt's source of randomness give while it is served.
pub record Request : Type 0 where
  pub method : Text
  pub path : List Text
  pub authorization : Text
  pub limit : Text
  pub body : Text
  pub pattern : Text
  pub path_id : Text
  pub user_id : Option Uuid
  pub now : ℕ
  pub salt : Text

-- The services behind the handlers. `scan_json` is encoding/json's scanner: the first JSON value of
-- a body of which at most so many bytes are read.
pub record App : Type 0 where
  pub auth : AuthService
  pub wallets : WalletService
  pub transfers : TransferService
  pub scan_json : ℕ → Text → Option Json

abbrev pub Handler : Type 0
Handler = Request → Prog Response

-- writeJSON, with the headers that are set before.
abbrev pub write_json : List (String × String) → ℕ → Body → Response
write_json headers status body = record {
  status = status;
  headers = ("Content-Type", "application/json") ∷ headers;
  body = body;
}

-- writeError
abbrev pub response : ℕ → String → String → Response
response status code message =
    write_json [] status (error_body (record { success = false; message = message; error = code }))

-- The cases of the switch after the first.
abbrev pub by_sentinel : Error → Response
by_sentinel e =
    if errors_is e username_taken
    then response 409 "username_taken" "that username is already registered"
    else if errors_is e invalid_credentials
    then response 401 "invalid_credentials" "invalid credentials"
    else if errors_is e unknown_recipient
    then response 404 "unknown_recipient" "recipient user does not exist"
    else if errors_is e self_transfer
    then response 400 "self_transfer" "cannot transfer to yourself"
    else if errors_is e no_wallet
    then response 404 "no_wallet" "no wallet yet; call POST /accounts first"
    else if errors_is e insufficient_funds
    then response 422 "insufficient_funds"
        "available balance is lower than the transfer amount (recently received money is on hold while its senders can still claim it back)"
    else if errors_is e idempotency_conflict
    then response 409 "idempotency_conflict"
        "idempotency_key was already used with a different request body"
    else if errors_is e claim_window_expired
    then response 409 "claim_window_expired" "the claim window for this transfer has expired"
    else if errors_is e not_found
    then response 404 "not_found" "resource not found"
    else response 503 "service_unavailable"
        "temporarily unable to process the request; safe to retry"

unfoldable pub write_domain_error : Error → Response
write_domain_error e = elim (as_validation e) [
  | some msg ↦ response 400 "validation_error" msg
  | none ↦ by_sentinel e
]

-- writeDomainError with the record that its default case logs; no other case answers 503.
abbrev pub note_unavailable : Response → Prog Unit
note_unavailable r = if r.status == 503 then act (Effect.log Event.db_unavailable) else ret tt

abbrev pub respond : {A : Type 0} → (A → Response) → Result A → Prog Response
respond f (ok a) = ret (f a)
respond f (err e) = do note_unavailable (write_domain_error e); ret (write_domain_error e)

-- decodeJSON: the request, or `none` for a body that is answered with `invalid_json`.
unfoldable pub decode_json :
    {A : Type 0} → App → (Text → Value → A → Option A) → A → Request → Option A
decode_json app set zero r = elim (app.scan_json 65536 r.body) [
  | none ↦ none
  | some json ↦ decode_into set zero json
]

-- The decoder's own text at the end of the message is left out.
abbrev pub invalid_json : Response
invalid_json = response 400 "invalid_json" "request body must be valid JSON: "

-- `api.UserID`: the nil UUID if the context has none.
abbrev pub caller : Request → Uuid
caller r = elim r.user_id [ none ↦ 0 | some id ↦ id ]
