-- ===== src/Api/Gate.antt =====
-- authenticate of internal/api/middleware.go: who the caller of a protected route is.
use wallet_service.Prelude.{
  String, Text, text, text_eq, eq_of_text_eq, text_eq_refl, [], ◌≡◌, ◌≢◌, refl, sym, ◌∙◌, subst,
  inl, inr, true, false, none, some, Bool-cases, Option-cases,
}
use mathlib.Core.Option.{some-injective}
use wallet_service.Errors.{Error}
use wallet_service.Models.{Uuid}
use wallet_service.Prog.{Prog, ok, err}
use wallet_service.Prog.Logic.{Result-cases}
use wallet_service.Auth.{AuthService, verify_token}
use wallet_service.Handlers.{Response, Request, Handler}
use wallet_service.Api.{cut_prefix, auth_fail, with_user_id, with_token, authenticate}

-- The request carries a token that names the user.
pub record Identified (a : AuthService) (r : Request) (id : Uuid) : Type 0 where
  pub token : Text
  pub carried : cut_prefix r.authorization (text "Bearer ") ≡ some token
  pub given : token ≢ []
  pub names : verify_token a r.now token ≡ ok id

module _ (a : AuthService) (next : Handler) (r : Request) where
  -- The handler runs with the token's user, or it does not run at all.
  pub data Gated (p : Prog Response) : Type 0 where
    admitted : (id : Uuid) → Identified a r id → p ≡ next (with_user_id r id) → Gated p
    rejected :
        (reason : String) → ((id : Uuid) → ¬ Identified a r id) → p ≡ auth_fail reason → Gated p

  no_bearer : cut_prefix r.authorization (text "Bearer ") ≡ none → (id : Uuid) → ¬ Identified a r id
  no_bearer e id h = cc (e, h.carried)

  module _ (token : Text) (e : cut_prefix r.authorization (text "Bearer ") ≡ some token) where
    same_token : (id : Uuid) → (h : Identified a r id) → h.token ≡ token
    same_token id h = some-injective h.token token (sym h.carried ∙ e)

    empty_token : text_eq token [] ≡ true → (id : Uuid) → ¬ Identified a r id
    empty_token t id h = h.given (same_token id h ∙ eq_of_text_eq token [] t)

    bad_token : (x : Error) → verify_token a r.now token ≡ err x → (id : Uuid) → ¬ Identified a r id
    bad_token x v id h =
        absurd (cc (v, subst (λ t. verify_token a r.now t ≡ ok id) (same_token id h) h.names))

    given_token : text_eq token [] ≡ false → token ≢ []
    given_token t p = cc (t, subst (λ x. text_eq x [] ≡ true) (sym p) (text_eq_refl []))

    with_token-Gated : Gated (with_token a next r token)
    with_token-Gated = elim (Bool-cases (text_eq token [])) [
      | inl t ↦ rejected "missing bearer token" (empty_token t) (rw (with_token, t) refl)
      | inr t ↦ elim (Result-cases (verify_token a r.now token)) [
        | inl (id, v) ↦
            admitted id (record { token = token; carried = e; given = given_token t; names = v })
              (rw (with_token, t, v) refl)
        | inr (x, v) ↦
            rejected "invalid or expired token" (bad_token x v) (rw (with_token, t, v) refl)
      ]
    ]

  -- A protected handler runs exactly when the request carries a bearer token that VerifyToken
  -- accepts, and then with the token's user as its caller, whatever else the request says. Every
  -- other request is rejected before the handler: the counter of authentication failures goes up,
  -- and no statement is executed.
  pub authenticate-Gated : Gated (authenticate a next r)
  unfolding authenticate
  authenticate-Gated = elim (Option-cases (cut_prefix r.authorization (text "Bearer "))) [
    | inl e ↦ rejected "missing bearer token" (no_bearer e) (rw (authenticate, e) refl)
    | inr (token, e) ↦ subst Gated (rw (authenticate, e) refl) (with_token-Gated token e)
  ]
