-- ===== src/Auth/Accounts.antt =====
-- From the signup to the login, of internal/service/auth.go.
use wallet_service.Prelude.{
  refl, ℕ, ◌+◌, Text, ltb, ◌++◌, List, [], ◌∷◌, ◌≡◌, ◌≢◌, sym, ap, ◌∙◌, subst, true, none, some,
  if◌then◌else◌,
}
use mathlib.Core.Option.{some-injective}
use wallet_service.Errors.{Error, sentinel, invalid_credentials}
use wallet_service.Models.{User}
use wallet_service.Sql.Tables.{find_username}
use wallet_service.Prog.{World, Outcome, Result, run}
use wallet_service.Prog.Logic.{Runs-returned, Runs-ok, Runs-weaken}
use wallet_service.Auth.{
  Claims, Libraries, AuthService, hs256, issue_token, signup, login, verify_token,
}
use wallet_service.Auth.Tokens.{Documented, verify_token-issue_token}
use wallet_service.Auth.Outcome.{SignedUp, signup-Runs}
use wallet_service.Auth.Users.{find_username-append, find_username-last}
use wallet_service.Auth.Login
use wallet_service.Auth.Login.{IsPassword, LoggedIn, NotLoggedIn, login-Runs}
use wallet_service.Guarantees.{IsQuiet}
use wallet_service.Guarantees.Standing.{start-Idle}

-- bcrypt takes a password for the hash that it made of it, and a signature by a secret that is a
-- list of bytes cannot fail.
pub record Dependable (l : Libraries) : Type 0 where
  pub hash_matches :
      (password : Text) (cost : ℕ) (salt hash : Text)
      → l.generate_from_password password cost salt ≡ some hash
      → l.compare_hash_and_password hash password ≡ true
  pub signs : (c : Claims) (secret : Text) → l.signed_string hs256 c secret ≢ none

issue_token-some :
    (a : AuthService)
    → Dependable a.libraries
    → (now : ℕ) (u : User) → issue_token a now u.id ≢ none
unfolding issue_token
issue_token-some a dep now u = dep.signs _ a.secret

-- What a signup leaves: the user is found, and bcrypt knows the password.
SignedUp-found :
    (a : AuthService) (salt : Text) (now : ℕ) (username password : Text) (w w' : World)
    (calm : Type 0) (r : User × Text) (more : List User)
    → SignedUp a salt now username password w.db w.clock (w.nature 0).uuid calm r w'
    → find_username username (w'.db.users ++ more) ≡ some r.0
SignedUp-found a salt now username password w w' calm r more h =
    find_username-append username w'.db.users more r.0 (
      subst (λ d. find_username username d.users ≡ some r.0) (sym h.added)
        (subst (λ n. find_username n (w.db.users ++ r.0 ∷ []) ≡ some r.0) name
          (find_username-last w.db.users r.0
            (subst (λ n. find_username n w.db.users ≡ none) (sym name) h.name_new))))
  where
    name : r.0.username ≡ username
    name = ap (λ u. u.username) h.row

-- Under documented libraries: when a signup has returned a user, a login with the same name and
-- password at any later time, when nothing fails, returns the same user, and its token identifies
-- that user until it expires. `more` are the users who have signed up since.
pub login-signup :
    (a : AuthService) (dep : Dependable a.libraries) (doc : Documented a.libraries) (salt : Text)
    (now now' : ℕ) (username password : Text) (w v : World) (r : User × Text) (more : List User)
    → w.tx ≡ none
    → (run (signup a salt now username password) w).0 ≡ Outcome.ok r
    → v.tx ≡ none
    → IsQuiet v
    → v.db.users ≡ (run (signup a salt now username password) w).1.db.users ++ more
    → (token : Text) × ((run (login a now' username password) v).0 ≡ Outcome.ok (r.0, token))
      × ((later : ℕ)
          → verify_token a later token ≡ (
              if ltb later (a.libraries.numeric_date (now' + a.token_ttl))
              then Result.ok r.0.id
              else Result.err (sentinel invalid_credentials)))
login-signup a dep doc salt now now' username password w v r more closed signed closed' quiet
      grown =
    let (s, p, (q, t)) =
      Runs-ok
        (Runs-weaken _ v (login-Runs a now' username password v Unit closed' (λ _. quiet))
          (λ s v' x. logged s v' x) (λ e v' x. refused e v' x))
        (λ e v' x. x) in
    (
      s.1,
      p ∙ ap (λ u. Outcome.ok (u, s.1)) q,
      verify_token-issue_token a doc r.0.id now' s.1
          (subst (λ u. issue_token a now' u.id ≡ some s.1) q t),
    )
  where
    up :
        SignedUp a salt now username password w.db w.clock
          (w.nature 0).uuid
          ⊥
          r
          (run (signup a salt now username password) w).1
    up =
        (Runs-returned
          (signup-Runs a salt now username password w.db w.clock (w.nature 0).uuid ⊥ w
            (start-Idle w closed) refl)
          r signed).0

    found : find_username username v.db.users ≡ some r.0
    found =
        subst (λ us. find_username username us ≡ some r.0) (sym grown)
          (SignedUp-found a salt now username password w _ ⊥ r more up)

    known : IsPassword a now' username password v Unit r.0
    known =
        subst (λ h. a.libraries.compare_hash_and_password h password ≡ true)
          (sym (ap (λ u. u.password_hash) up.row))
          (dep.hash_matches password _ salt up.hash up.hash_is)

    logged :
        (s : User × Text) (v' : World)
        → LoggedIn a now' username password v Unit s v'
        → (s.0 ≡ r.0) × (issue_token a now' s.0.id ≡ some s.1)
    logged s v' x = (some-injective s.0 r.0 (sym x.found ∙ found), x.token)

    refused : (e : Error) (v' : World) → NotLoggedIn a now' username password v Unit e v' → ⊥
    refused e v' (Login.no_credentials p n k) = n r.0 found known
    refused e v' (Login.storage s n k) = n tt
    refused e v' (Login.no_token u p f g n k) = issue_token-some a dep now' u n
