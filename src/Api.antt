-- ===== src/Api.antt =====
-- internal/api: the middleware, and the mux with its routes. net/http's ServeMux is written out for
-- the patterns that are registered; a path that it would clean and redirect is left out.
pub mod Mux
pub mod Gate
pub mod Kept
use wallet_service.Prelude.{
  ℕ, String, Text, text, text_eq, ◌==◌, List, [], ◌∷◌, Bool, true, false, ◌&&◌, ◌||◌, Option, none,
  some, if◌then◌else◌,
}
use wallet_service.Observe.{Counter, Event}
use wallet_service.Prog.{Prog, ret, fail, panic, perform, Effect, act, Result, ok, err, ◌>>=◌, ◌>>◌}
use wallet_service.Models.{Uuid}
use wallet_service.Auth.{AuthService, verify_token}
use wallet_service.Handlers.{error_body, plain_body, Response, Request, Handler}

-- http.Error
abbrev pub http_error : String → ℕ → Response
http_error message status = record {
  status = status;
  headers =
      ("Content-Type", "text/plain; charset=utf-8") ∷ ("X-Content-Type-Options", "nosniff") ∷ [];
  body = plain_body message;
}

-- The deferred function of recovery.
abbrev pub internal_error : Response
internal_error =
    http_error "{\"success\":false,\"message\":\"internal error\",\"error\":\"internal\"}" 500

abbrev pub recovering : Prog Response → Prog Response
recovering (ret resp) = ret resp
recovering (fail e) = fail e
recovering panic = perform (Effect.log Event.panic) (λ _. ret internal_error)
recovering (perform e k) = perform e (λ x. recovering (k x))

-- recovery
unfoldable pub recovery : Handler → Handler
recovery next r = recovering (next r)

-- metrics, which reads the pattern of its own request. The histogram is left out.
abbrev pub route_label : Text → Text
route_label [] = text "unmatched"
route_label (c ∷ s) = c ∷ s

unfoldable pub metrics : Handler → Handler
metrics next r = do
  resp ← next r
  act (Effect.inc (Counter.http_requests (route_label r.pattern) r.method resp.status))
  act (Effect.log (Event.request resp.status))
  ret resp

-- withTimeout gives the next handler a copy of the request. A deadline that is hit is a failure of
-- the driver at the statement that waits.
unfoldable pub with_timeout : Handler → Handler
with_timeout next r = next r

-- strings.CutPrefix
unfoldable pub cut_prefix : Text → Text → Option Text
cut_prefix s [] = some s
cut_prefix [] (p ∷ prefix) = none
cut_prefix (c ∷ s) (p ∷ prefix) = let rest = cut_prefix s prefix in if c == p then rest else none

-- authFail
abbrev pub unauthorized : String → Response
unauthorized reason = record {
  status = 401;
  headers = ("Content-Type", "application/json") ∷ [];
  body = error_body (record { success = false; message = reason; error = "unauthorized" });
}

abbrev pub auth_fail : String → Prog Response
auth_fail reason = do
  act (Effect.inc Counter.auth_failures)
  act (Effect.log (Event.auth_failure (text reason)))
  ret (unauthorized reason)

-- withUserID
abbrev pub with_user_id : Request → Uuid → Request
with_user_id r id = record r { user_id = some id }

abbrev pub verified : Handler → Request → Result Uuid → Prog Response
verified next r (ok id) = next (with_user_id r id)
verified next r (err e) = auth_fail "invalid or expired token"

abbrev pub with_token : AuthService → Handler → Request → Text → Prog Response
with_token a next r token =
    if text_eq token []
    then auth_fail "missing bearer token"
    else verified next r (verify_token a r.now token)

-- authenticate
unfoldable pub authenticate : AuthService → Handler → Handler
authenticate a next r = elim (cut_prefix r.authorization (text "Bearer ")) [
  | none ↦ auth_fail "missing bearer token"
  | some token ↦ with_token a next r token
]

-- A segment of a pattern; `{id}` is the one wildcard, and `/{$}` is the empty segment.
pub data Segment : Type 0 where
  literal : Text → Segment
  id_wildcard : Segment

pub record Pattern : Type 0 where
  pub text : Text
  pub method : Text
  pub segments : List Segment

-- The path value if the segments fit, empty for a pattern without `{id}`.
unfoldable pub match_path : List Segment → List Text → Option Text
match_path [] [] = some []
match_path (literal l ∷ ps) (s ∷ ss) =
    let rest = match_path ps ss in if text_eq l s then rest else none
match_path (id_wildcard ∷ ps) (s ∷ ss) = elim (match_path ps ss) [
  | none ↦ none
  | some _ ↦ if text_eq s [] then none else some s
]
match_path _ _ = none

-- A pattern for GET takes HEAD as well.
unfoldable pub match_method : Text → Text → Bool
match_method pattern method =
    text_eq pattern method || (text_eq pattern (text "GET") && text_eq method (text "HEAD"))

-- The first pattern that fits the request, with the path value. At most one does (Mux).
abbrev pub Table : Type 0
Table = List (Pattern × Handler)

unfoldable pub find_route : Table → Request → Option (Pattern × Handler × Text)
find_route [] r = none
find_route ((p, h) ∷ t) r =
    let rest = find_route t r in
    elim (match_path p.segments r.path) [
      | none ↦ rest
      | some id ↦ if match_method p.method r.method then some (p, h, id) else rest
    ]

unfoldable pub path_known : Table → List Text → Bool
path_known [] path = false
path_known ((p, h) ∷ t) path =
    let rest = path_known t path in
    elim (match_path p.segments path) [ none ↦ rest | some _ ↦ true ]

-- mux.ServeHTTP. The Allow header of a 405 is left out.
unfoldable pub serve_mux : Table → Handler
serve_mux t r = elim (find_route t r) [
  | none ↦ ret (
      if path_known t r.path
      then http_error "Method Not Allowed" 405
      else http_error "404 page not found" 404)
  | some (p, h, id) ↦ h (record r { pattern = p.text; path_id = id })
]

-- Routes: what NewRouter is given.
pub record Routes : Type 0 where
  pub signup : Handler
  pub login : Handler
  pub create_account : Handler
  pub get_my_account : Handler
  pub create_transfer : Handler
  pub get_transfer : Handler
  pub claim_transfer : Handler
  pub index : Handler
  pub healthz : Handler
  pub readyz : Handler
  pub metrics : Handler
  pub logs : Handler

abbrev pub pattern : String → String → List Segment → Pattern
pattern full method segments = record {
  text = text full;
  method = text method;
  segments = segments;
}

abbrev pub table : Routes → (Handler → Handler) → Table
table routes authed =
    (
      pattern "POST /auth/signup" "POST" (literal (text "auth") ∷ literal (text "signup") ∷ []),
      routes.signup,
    )
    ∷ (
      pattern "POST /auth/login" "POST" (literal (text "auth") ∷ literal (text "login") ∷ []),
      routes.login,
    )
    ∷ (
      pattern "POST /accounts" "POST" (literal (text "accounts") ∷ []),
      authed routes.create_account,
    )
    ∷ (
      pattern "GET /accounts/me" "GET" (literal (text "accounts") ∷ literal (text "me") ∷ []),
      authed routes.get_my_account,
    )
    ∷ (
      pattern "POST /transfers" "POST" (literal (text "transfers") ∷ []),
      authed routes.create_transfer,
    )
    ∷ (
      pattern "GET /transfers/{id}" "GET" (literal (text "transfers") ∷ id_wildcard ∷ []),
      authed routes.get_transfer,
    )
    ∷ (
      pattern "POST /transfers/{id}/claim" "POST"
          (literal (text "transfers") ∷ id_wildcard ∷ literal (text "claim") ∷ []),
      authed routes.claim_transfer,
    )
    ∷ (pattern "GET /{$}" "GET" (literal [] ∷ []), routes.index)
    ∷ (pattern "GET /healthz" "GET" (literal (text "healthz") ∷ []), routes.healthz)
    ∷ (pattern "GET /readyz" "GET" (literal (text "readyz") ∷ []), routes.readyz)
    ∷ (pattern "GET /metrics" "GET" (literal (text "metrics") ∷ []), routes.metrics)
    ∷ (pattern "GET /logs" "GET" (literal (text "logs") ∷ []), routes.logs)
    ∷ []

-- NewRouter. requestID, which only names the request in the log and in a header, is left out.
unfoldable pub new_router : Routes → AuthService → Handler
new_router routes a = recovery (metrics (with_timeout (serve_mux (table routes (authenticate a)))))
