-- ===== src/Server/Standing.antt =====
-- Every route of the server leaves the ledger standing.
use wallet_service.Prelude.{text, List, [], ◌∷◌, ◌≡◌, ap, ◌∙◌, arith, inl, inr, Option-cases}
use wallet_service.Prog.{Prog, World, Outcome, run}
use wallet_service.Prog.Logic.{Runs, Runs-ret, Runs-ok}
use wallet_service.Dto.{set_transfer, no_transfer}
use wallet_service.Transfer.{TransferService}
use wallet_service.Transfer.Execute.Resolve.{execute-Runs}
use wallet_service.Transfer.Claim.Resolve.{claim_back-Runs}
use wallet_service.Config.{Config}
use wallet_service.Config.Loaded.{IsUsable}
use wallet_service.Guarantees.{HasSeed, IsStanding}
use wallet_service.Guarantees.Standing.{
  kept-IsStanding, start-Idle, execute-IsStanding, claim_back-IsStanding,
}
use wallet_service.Guarantees.Accounts.{beside, get_or_create-Runs, get_or_create-IsStanding}
use wallet_service.Guarantees.Reached.{waited-IsStanding}
use wallet_service.Handlers.{Response, Request, App, Handler, decode_json, caller}
use wallet_service.Handlers.Transfers.{
  created_response, shown_response, claimed_response, create_transfer, get_transfer, claim_transfer,
}
use wallet_service.Handlers.Transfers.Created.{requested}
use wallet_service.Handlers.Accounts.{
  opened_response, balances_response, create_account, get_my_account,
}
use wallet_service.Handlers.Health.{index, healthz}
use wallet_service.Observe.{Counter}
use wallet_service.Api.{new_router, route_label, with_timeout, serve_mux, table, authenticate}
use wallet_service.Api.Kept.{
  Never, Kept, Kept-ret, authenticate-Kept, handled-Kept, serve_mux-Kept, Counted, recovery-Kept,
}
use wallet_service.Server.{
  Environs, new_transfer_service, new_auth_service, new_app, routes, new_handler,
}
use wallet_service.Server.Public.{
  Bystanding, read-Kept, handle_signup-Kept, handle_login-Kept, serve_logs-Kept, readyz-Kept,
}
use wallet_service.Server.Decoded.{decode_json-InRange}
use wallet_service.Server.Reads.{get_by_id-Reading, get_balance-Reading}

module _ (x : Environs) (cfg : Config) (usable : IsUsable cfg) where
  abbrev svc : TransferService
  svc = new_transfer_service x cfg

  abbrev app : App
  app = new_app x cfg

  abbrev Stands : World → Type 0
  Stands w = IsStanding svc w

  seed_ok : HasSeed svc
  seed_ok = (usable.seed_nonneg, usable.seed_fits)

  stable : (w w' : World) → w'.db ≡ w.db → w'.tx ≡ w.tx → w'.clock ≡ w.clock → Stands w → Stands w'
  stable w w' d t c h = kept-IsStanding svc w w' h (omega (arith, c)) d (t ∙ h.closed)

  abbrev Safe : Prog Response → World → Type 0
  Safe p w = Kept Stands stable p w

  -- Requests that write no wallet and no transfer leave the ledger standing.
  step : (w : World) → Stands w → Bystanding Stands w
  step w h w' c p q le = waited-IsStanding svc w w' h c p q le

  create_transfer-Safe : (r : Request) (w : World) → Stands w → Safe (create_transfer app r) w
  unfolding create_transfer
  create_transfer-Safe r w h = elim (Option-cases (decode_json app set_transfer no_transfer r)) [
    | inl e ↦ rw (create_transfer, e) (Kept-ret Stands stable _ w h)
    | inr (req, e) ↦
        rw (create_transfer, e)
          (handled-Kept Stands stable (created_response app) _ w
            (execute-Runs svc (requested r req) w.db w.clock ⊥ (λ q. absurd q) w
              (start-Idle w h.closed))
            (execute-IsStanding svc seed_ok (requested r req) (decode_json-InRange app r req e) w
              h))
  ]

  claim_transfer-Safe : (r : Request) (w : World) → Stands w → Safe (claim_transfer app r) w
  unfolding claim_transfer
  claim_transfer-Safe r w h = elim (Option-cases (x.libraries.uuid_parse r.path_id)) [
    | inl e ↦ rw (claim_transfer, e) (Kept-ret Stands stable _ w h)
    | inr (id, e) ↦
        rw (claim_transfer, e)
          (handled-Kept Stands stable (claimed_response app) _ w
            (claim_back-Runs svc (caller r) id w.db w.clock ⊥ h.sound.rows (λ q. absurd q) w
              (start-Idle w h.closed))
            (claim_back-IsStanding svc (caller r) id w h))
  ]

  get_transfer-Safe : (r : Request) (w : World) → Stands w → Safe (get_transfer app r) w
  unfolding get_transfer
  get_transfer-Safe r w h = elim (Option-cases (x.libraries.uuid_parse r.path_id)) [
    | inl e ↦ rw (get_transfer, e) (Kept-ret Stands stable _ w h)
    | inr (id, e) ↦
        let k = get_by_id-Reading svc (caller r) id w h.closed in
        rw (get_transfer, e) (read-Kept Stands stable w (step w h) (shown_response app) _ k)
  ]

  create_account-Safe : (r : Request) (w : World) → Stands w → Safe (create_account app r) w
  unfolding create_account
  create_account-Safe r w h =
      handled-Kept Stands stable (opened_response app r) _ w
        (get_or_create-Runs (beside svc) (caller r) w.db w.clock ⊥ (λ q. absurd q) w
          (start-Idle w h.closed))
        (get_or_create-IsStanding svc seed_ok (caller r) w h)

  get_my_account-Safe : (r : Request) (w : World) → Stands w → Safe (get_my_account app r) w
  unfolding get_my_account
  get_my_account-Safe r w h =
      let k = get_balance-Reading app.wallets (caller r) w h.closed in
      read-Kept Stands stable w (step w h) balances_response _ k

  module _ (r : Request) (w : World) (h : Stands w) where
    guarded-Safe :
        (next : Handler) (q : Request)
        → ((q : Request) → Safe (next q) w)
        → Safe (authenticate (new_auth_service x cfg) next q) w
    guarded-Safe next q go =
        authenticate-Kept Stands stable (new_auth_service x cfg) next q w h (λ id i. go _)

    serve_mux-Safe :
        Safe (serve_mux (table (routes x app) (authenticate (new_auth_service x cfg))) r) w
    unfolding index healthz
    serve_mux-Safe = serve_mux-Kept Stands stable _ r w h (
      (λ id. handle_signup-Kept Stands stable w (step w h) h.closed app _ h),
      (
        (λ id. handle_login-Kept Stands stable w (step w h) h.closed app _ h),
        (
          (λ id. guarded-Safe _ _ (λ q. create_account-Safe q w h)),
          (
            (λ id. guarded-Safe _ _ (λ q. get_my_account-Safe q w h)),
            (
              (λ id. guarded-Safe _ _ (λ q. create_transfer-Safe q w h)),
              (
                (λ id. guarded-Safe _ _ (λ q. get_transfer-Safe q w h)),
                (
                  (λ id. guarded-Safe _ _ (λ q. claim_transfer-Safe q w h)),
                  (
                    (λ id. Runs-ret _ h),
                    (
                      (λ id. Runs-ret _ h),
                      (
                        (λ id. readyz-Kept Stands stable w (step w h) h.closed _),
                        (
                          (λ id. Runs-ret _ h),
                          ((λ id. serve_logs-Kept Stands stable w (step w h) _ _ h), tt),
                        ),
                      ),
                    ),
                  ),
                ),
              ),
            ),
          ),
        ),
      ),
    )

    new_handler-Runs :
        Runs (new_handler x cfg r) w (λ resp w'. Stands w' × Counted Stands stable r resp w') Never
    unfolding new_handler new_router with_timeout
    new_handler-Runs =
        recovery-Kept Stands stable
          (serve_mux (table (routes x app) (authenticate (new_auth_service x cfg)))) r w
          serve_mux-Safe

    pub new_handler-keeps : IsStanding (new_transfer_service x cfg) (run (new_handler x cfg r) w).1
    new_handler-keeps = let (resp, p, (k, c)) = Runs-ok new_handler-Runs (λ e w' n. n) in k

    -- Of a server whose configuration Load accepts, on a standing ledger: every request is
    -- answered, whatever it says and whatever the driver does at each statement; there is no error
    -- and no panic that the answer does not hide. The ledger is left standing, and the counter of
    -- requests that is raised last has the method and the status of the answer and, for a request
    -- as net/http hands it over, without a pattern, the route `unmatched`.
    pub new_handler-answers :
        r.pattern ≡ []
        → (resp : Response) × ((run (new_handler x cfg r) w).0 ≡ Outcome.ok resp)
          × IsStanding (new_transfer_service x cfg) (run (new_handler x cfg r) w).1
          × ((ms : List Counter) × ((run (new_handler x cfg r) w).1.metrics
                ≡ Counter.http_requests (text "unmatched") r.method resp.status ∷ ms))
    new_handler-answers arrived =
        let (resp, p, (k, (ms, q))) = Runs-ok new_handler-Runs (λ e w' n. n) in
        (
          resp,
          p,
          k,
          (
            ms,
            q ∙ ap (λ s. Counter.http_requests (route_label s) r.method resp.status ∷ ms) arrived,
          ),
        )
