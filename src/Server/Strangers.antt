-- ===== src/Server/Strangers.antt =====
-- A request without a valid token moves no money.
use wallet_service.Prelude.{Text, ◌≡◌, refl, ap, ◌∙◌, none}
use wallet_service.Models.{Uuid, Db}
use wallet_service.Prog.{World, Outcome, run}
use wallet_service.Prog.Logic.{Runs, Runs-ret, Runs-ok}
use wallet_service.Config.{Config}
use wallet_service.Handlers.{Response, Request, Handler}
use wallet_service.Handlers.Health.{index, healthz}
use wallet_service.Api.{new_router, with_timeout, serve_mux, table, authenticate}
use wallet_service.Api.Gate.{Identified}
use wallet_service.Api.Kept.{Never, Kept, authenticate-Kept, serve_mux-Kept, Counted, recovery-Kept}
use wallet_service.Server.{Environs, new_auth_service, new_app, routes, new_handler}
use wallet_service.Server.Public.{
  Bystanding, handle_signup-Kept, handle_login-Kept, serve_logs-Kept, readyz-Kept,
}

-- No wallet and no transfer of `d` has changed.
pub record Unmoved (d : Db) (w : World) : Type 0 where
  pub closed : w.tx ≡ none
  pub wallets : w.db.wallets ≡ d.wallets
  pub transfers : w.db.transfers ≡ d.transfers

module _ (x : Environs) (cfg : Config) (r : Request) (w : World) (closed : w.tx ≡ none)
    (stranger : (id : Uuid) → ¬ Identified (new_auth_service x cfg) r id) where
  stable :
      (v v' : World)
      → v'.db ≡ v.db
      → v'.tx ≡ v.tx
      → v'.clock ≡ v.clock
      → Unmoved w.db v
      → Unmoved w.db v'
  stable v v' d t c h = record {
    closed = t ∙ h.closed;
    wallets = ap (λ x. x.wallets) d ∙ h.wallets;
    transfers = ap (λ x. x.transfers) d ∙ h.transfers;
  }

  step : Bystanding (Unmoved w.db) w
  step w' c p q le = record { closed = c; wallets = p; transfers = q }

  start : Unmoved w.db w
  start = record { closed = closed; wallets = refl; transfers = refl }

  -- The mux gives the handler the same header.
  guarded-Unmoved :
      (next : Handler) (pattern id : Text)
      → Kept
          (Unmoved w.db)
          stable
          (authenticate
            (new_auth_service x cfg)
            next
            (record r { pattern = pattern; path_id = id }))
          w
  guarded-Unmoved next pattern id =
      authenticate-Kept (Unmoved w.db) stable (new_auth_service x cfg) next _ w start (λ u i.
        absurd (
          stranger u
            (record { token = i.token; carried = i.carried; given = i.given; names = i.names })))

  serve_mux-Unmoved :
      Kept
        (Unmoved w.db)
        stable
        (serve_mux (table (routes x (new_app x cfg)) (authenticate (new_auth_service x cfg))) r)
        w
  unfolding index healthz
  serve_mux-Unmoved = serve_mux-Kept (Unmoved w.db) stable _ r w start (
    (λ id. handle_signup-Kept (Unmoved w.db) stable w step closed (new_app x cfg) _ start),
    (
      (λ id. handle_login-Kept (Unmoved w.db) stable w step closed (new_app x cfg) _ start),
      (
        (λ id. guarded-Unmoved _ _ id),
        (
          (λ id. guarded-Unmoved _ _ id),
          (
            (λ id. guarded-Unmoved _ _ id),
            (
              (λ id. guarded-Unmoved _ _ id),
              (
                (λ id. guarded-Unmoved _ _ id),
                (
                  (λ id. Runs-ret _ start),
                  (
                    (λ id. Runs-ret _ start),
                    (
                      (λ id. readyz-Kept (Unmoved w.db) stable w step closed _),
                      (
                        (λ id. Runs-ret _ start),
                        ((λ id. serve_logs-Kept (Unmoved w.db) stable w step _ _ start), tt),
                      ),
                    ),
                  ),
                ),
              ),
            ),
          ),
        ),
      ),
    ),
  )

  new_handler-Runs :
      Runs
        (new_handler x cfg r)
        w
        (λ resp w'. Unmoved w.db w' × Counted (Unmoved w.db) stable r resp w')
        Never
  unfolding new_handler new_router with_timeout
  new_handler-Runs =
      recovery-Kept (Unmoved w.db) stable
        (serve_mux (table (routes x (new_app x cfg)) (authenticate (new_auth_service x cfg)))) r w
        serve_mux-Unmoved

  -- With no transaction open, a request without a bearer token that VerifyToken accepts, whatever
  -- its route and its body and whatever the driver does, is answered and leaves every wallet and
  -- every transfer as it was.
  pub new_handler-Unmoved :
      (resp : Response) × ((run (new_handler x cfg r) w).0 ≡ Outcome.ok resp)
      × Unmoved w.db (run (new_handler x cfg r) w).1
  new_handler-Unmoved =
      let (resp, p, (k, c)) = Runs-ok new_handler-Runs (λ e w' n. n) in (resp, p, k)
