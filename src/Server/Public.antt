-- ===== src/Server/Public.antt =====
-- The routes without authentication, and every reading call: they write no wallet and no transfer.
use wallet_service.Prelude.{
  ℤ, Option, refl, ℕ, ◌≤◌, Text, ◌≡◌, ap, subst, none, inl, inr, Option-cases,
}
use wallet_service.Prog.{Prog, World, Result, ok, err, attempt, run, ◌>>=◌}
use wallet_service.Prog.Clock.{clock-run}
use wallet_service.Prog.Logic.{
  Runs-ret, Runs-state, Runs-weaken, Runs-bind, Runs-attempt, Attempted, Runs-final,
}
use wallet_service.Dto.{set_signup, no_signup}
use wallet_service.Repository.{ping}
use wallet_service.Auth.{AuthService, signup}
use wallet_service.Auth.Outcome.{signup-Runs}
use wallet_service.Auth.Users.{signup-Enrolled}
use wallet_service.Guarantees.Standing.{start-Idle}
use wallet_service.Handlers.{Response, Request, App, decode_json, respond}
use wallet_service.Handlers.Accounts.{token_response, handle_signup, handle_login}
use wallet_service.Handlers.Health.{readyz}
use wallet_service.Observe.Ring.{Ring, served}
use wallet_service.Observe.Ring.Latest.{served-IsShown}
use wallet_service.Server.{lines_response}
use wallet_service.Api.Kept.{Kept, Kept-ret, handled-Kept}
use wallet_service.Server.Reads.{Untouched, Reading, ping-Reading, login-Reading}

-- `P` holds in every later state with the same wallets and transfers.
abbrev pub Bystanding : (World → Type 0) → World → Type 0
Bystanding P w =
    (w' : World)
    → w'.tx ≡ none
    → w'.db.wallets ≡ w.db.wallets
    → w'.db.transfers ≡ w.db.transfers
    → w.clock ≤ w'.clock
    → P w'

module _ (P : World → Type 0)
    (stable : (w w' : World) → w'.db ≡ w.db → w'.tx ≡ w.tx → w'.clock ≡ w.clock → P w → P w')
    (w : World) (step : Bystanding P w) where
  -- GET /logs does not panic.
  pub serve_logs-Kept :
      (ring : Ring) (limit : Option ℤ) → P w → Kept P stable (lines_response (served limit ring)) w
  serve_logs-Kept ring limit h =
      let (lines, printed, _) = served-IsShown limit ring in rw printed (Kept-ret P stable _ w h)

  read_ends : {A : Type 0} (p : Prog A) → Reading p w → P (run p w).1
  read_ends p k =
      let (e, c) = Runs-state k (Untouched w.db) (λ a w' x. x) (λ e w' x. x) in
      step _ c (ap (λ d. d.wallets) e) (ap (λ d. d.transfers) e) (clock-run p w)

  pub read-Kept :
      {A : Type 0} (f : A → Response) (p : Prog A)
      → Reading p w
      → Kept P stable (attempt p >>= respond f) w
  read-Kept f p k = handled-Kept P stable f p w k (read_ends p k)

  module _ (closed : w.tx ≡ none) where
    signup_ends :
        (a : AuthService) (salt : Text) (now : ℕ) (username password : Text)
        → P (run (signup a salt now username password) w).1
    signup_ends a salt now username password =
        let e = signup-Enrolled a salt now username password w closed in
        step _ e.closed e.wallets e.transfers (clock-run (signup a salt now username password) w)

    pub handle_signup-Kept : (app : App) (r : Request) → P w → Kept P stable (handle_signup app r) w
    unfolding handle_signup
    handle_signup-Kept app r h = elim (Option-cases (decode_json app set_signup no_signup r)) [
      | inl e ↦ rw (handle_signup, e) (Kept-ret P stable _ w h)
      | inr (req, e) ↦
          rw (handle_signup, e)
            (handled-Kept P stable (token_response app 201) _ w
              (signup-Runs app.auth r.salt r.now req.username req.password w.db w.clock
                (w.nature 0).uuid ⊥ w (start-Idle w closed) refl)
              (signup_ends app.auth r.salt r.now req.username req.password))
    ]

    pub handle_login-Kept : (app : App) (r : Request) → P w → Kept P stable (handle_login app r) w
    unfolding handle_login
    handle_login-Kept app r h = elim (Option-cases (decode_json app set_signup no_signup r)) [
      | inl e ↦ rw (handle_login, e) (Kept-ret P stable _ w h)
      | inr (req, e) ↦
          rw (handle_login, e)
            (read-Kept (token_response app 200) _
              (login-Reading app.auth r.now req.username req.password w closed))
    ]

    pub readyz-Kept : (r : Request) → Kept P stable (readyz r) w
    unfolding readyz
    readyz-Kept r =
        let k = ping-Reading w closed in
        Runs-bind (attempt ping) _ w
          (Runs-attempt ping w (
            Runs-weaken ping w (Runs-final k) (λ a w' (q, e). subst P e (read_ends ping k))
              (λ y w' (q, e). subst P e (read_ends ping k))))
          (λ o w' q. Runs-ret _ (either o w' q))
      where
        either :
            (o : Result (Unit {0})) (w' : World)
            → Attempted (λ _ w'. P w') (λ _ w'. P w') o w'
            → P w'
        either (ok a) w' q = q
        either (err e) w' q = q
