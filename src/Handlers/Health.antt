-- ===== src/Handlers/Health.antt =====
-- internal/handlers/health.go: HealthHandler.
use wallet_service.Prelude.{[], ◌∷◌}
use wallet_service.Prog.{ret, Result, ok, err, attempt, ◌>>=◌}
use wallet_service.Repository.{ping}
use wallet_service.Handlers.{object_body, index_body, Response, Handler, write_json}

-- Index
unfoldable pub index : Handler
index r = ret (
    write_json [] 200 (
      index_body "wallet-service" "https://github.com/Ria-verma/wallet-service" (
        "POST /auth/signup {username, password}" ∷ "POST /auth/login {username, password}"
        ∷ "POST /accounts (Bearer)" ∷ "GET /accounts/me (Bearer)"
        ∷ "POST /transfers {to_user, amount_paise, idempotency_key} (Bearer)"
        ∷ "GET /transfers/{id} (Bearer)" ∷ "GET /healthz | /readyz | /metrics | /logs" ∷ [])))

-- Healthz
unfoldable pub healthz : Handler
healthz r = ret (write_json [] 200 (object_body (("status", "ok") ∷ [])))

abbrev pub readiness : Result (Unit {0}) → Response
readiness (ok u) = write_json [] 200 (object_body (("status", "ready") ∷ []))
readiness (err e) =
    write_json [] 503
      (object_body (("status", "unready") ∷ ("reason", "database unreachable") ∷ []))

-- Readyz
unfoldable pub readyz : Handler
readyz r = do reached ← attempt ping; ret (readiness reached)
