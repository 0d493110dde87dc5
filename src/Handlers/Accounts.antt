-- ===== src/Handlers/Accounts.antt =====
-- internal/handlers/wallet.go and auth.go: WalletHandler and AuthHandler.
use wallet_service.Prelude.{ℕ, ℤ, Text, Bool, none, some, [], if◌then◌else◌}
use wallet_service.Models.{User}
use wallet_service.Dto.{set_signup, no_signup}
use wallet_service.Prog.{ret, attempt, ◌>>=◌}
use wallet_service.Wallet.{get_or_create, get_balance}
use wallet_service.Auth.{signup, login}
use wallet_service.Handlers.{
  auth_body, account_body, balance_body, Response, Request, App, Handler, write_json, respond,
  decode_json, invalid_json, caller,
}

abbrev pub opened_response : App → Request → ℤ × Bool → Response
opened_response app r (balance, created) = write_json [] (if created then 201 else 200) (
    account_body
      (record { user_id = app.auth.libraries.uuid_string (caller r); balance_paise = balance }))

-- CreateAccount
unfoldable pub create_account : App → Handler
create_account app r = do
  made ← attempt (get_or_create app.wallets (caller r))
  respond (opened_response app r) made

abbrev pub balances_response : ℤ × ℤ → Response
balances_response (balance, available) =
    write_json [] 200
      (balance_body (record { balance_paise = balance; available_paise = available }))

-- GetMyAccount
unfoldable pub get_my_account : App → Handler
get_my_account app r = do
  found ← attempt (get_balance app.wallets (caller r))
  respond balances_response found

abbrev pub token_response : App → ℕ → User × Text → Response
token_response app status (user, token) =
    write_json [] status
      (auth_body (record { token = token; user_id = app.auth.libraries.uuid_string user.id }))

-- Signup
unfoldable pub handle_signup : App → Handler
handle_signup app r = elim (decode_json app set_signup no_signup r) [
  | none ↦ ret invalid_json
  | some req ↦ (do
    made ← attempt (signup app.auth r.salt r.now req.username req.password)
    respond (token_response app 201) made)
]

-- Login
unfoldable pub handle_login : App → Handler
handle_login app r = elim (decode_json app set_signup no_signup r) [
  | none ↦ ret invalid_json
  | some req ↦ (do
    found ← attempt (login app.auth r.now req.username req.password)
    respond (token_response app 200) found)
]
