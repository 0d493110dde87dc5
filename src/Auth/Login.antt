-- ===== src/Auth/Login.antt =====
-- Every way in which Login of internal/service/auth.go ends.
use wallet_service.Prelude.{
  ℕ, Text, ◌≡◌, refl, inl, inr, true, none, some, arith, Option-cases, Bool-cases,
}
use wallet_service.Errors.{Error, sentinel, external, invalid_credentials}
use wallet_service.Models.{User}
use wallet_service.Sql
use wallet_service.Sql.{from_option, run_query}
use wallet_service.Sql.Tables.{find_username}
use wallet_service.Prog.{World, run, ◌>>=◌}
use wallet_service.Prog.Logic.{Runs, Runs-ret, Runs-fail, Post}
use wallet_service.Repository.{get_user_by_username}
use wallet_service.Repository.Idle.{Runs-read}
use wallet_service.Transfer.Execute.{IsStorage}
use wallet_service.Auth.{AuthService, issue_token, issued, login, check_password}
use wallet_service.Guarantees.{IsQuiet}

module _ (a : AuthService) (now : ℕ) (username password : Text) (w : World) (calm : Type 0) where
  -- The password is the user's, as far as bcrypt can tell.
  abbrev pub IsPassword : User → Type 0
  IsPassword u = a.libraries.compare_hash_and_password u.password_hash password ≡ true

  pub record LoggedIn (r : User × Text) (w' : World) : Type 0 where
    pub found : find_username username w.db.users ≡ some r.0
    pub password_fits : IsPassword r.0
    pub token : issue_token a now r.0.id ≡ some r.1
    pub kept : w'.db ≡ w.db

  pub data NotLoggedIn (e : Error) (w' : World) : Type 0 where
    no_credentials :
        e ≡ sentinel invalid_credentials
        → ((u : User) → find_username username w.db.users ≡ some u → ¬ IsPassword u)
        → w'.db ≡ w.db
        → NotLoggedIn e w'
    storage : IsStorage e → ¬ calm → w'.db ≡ w.db → NotLoggedIn e w'
    no_token :
        (u : User)
        → e ≡ external "sign token"
        → find_username username w.db.users ≡ some u
        → IsPassword u
        → issue_token a now u.id ≡ none
        → w'.db ≡ w.db
        → NotLoggedIn e w'

  known-Runs :
      (u : User) (w' : World)
      → find_username username w.db.users ≡ some u
      → w'.db ≡ w.db
      → Runs
          (check_password a password u >>= λ v. issued v (issue_token a now v.id))
          w'
          LoggedIn
          NotLoggedIn
  known-Runs u w' f kept =
      elim (Bool-cases (a.libraries.compare_hash_and_password u.password_hash password)) [
        | inr bad ↦ rw bad (Runs-fail _ (no_credentials refl (λ v g p. cc (f, g, bad, p)) kept))
        | inl good ↦ elim (Option-cases (issue_token a now u.id)) [
          | inl e ↦ rw (good, e) (Runs-fail _ (no_token u refl f good e kept))
          | inr (token, e) ↦
              rw (good, e)
                (Runs-ret _ (record { found = f; password_fits = good; token = e; kept = kept }))
        ]
      ]

  pub login-Runs :
      w.tx ≡ none → (calm → IsQuiet w) → Runs (login a now username password) w LoggedIn NotLoggedIn
  unfolding login get_user_by_username run_query
  login-Runs closed quiet =
      Runs-read w.db w.clock calm (Sql.select_user_by_username username)
        (from_option (find_username username w.db.users)) _ w (λ now u. refl)
        (record { kept = refl; closed = closed; quiet = quiet; since = omega arith })
        (λ w₁ h₁. elim (Option-cases (find_username username w.db.users)) [
          | inl e ↦ rw e (Runs-fail _ (no_credentials refl (λ u f. absurd (cc (e, f))) h₁.kept))
          | inr (u, f) ↦ rw f (known-Runs u w₁ f h₁.kept)
        ])
        (λ w₁ h₁ n. Runs-fail _ (storage tt n h₁.kept))

  -- With no transaction open, every call of `Login` ends in a result or an error, never in a
  -- panic, and changes no table. A result means that the name is the user's, that the password fits
  -- the stored hash and that the token is issued for that user. A name that no user has and a
  -- password that does not fit get the same error. Of the other errors one is the token's
  -- signature's, and one the storage's, which `calm`, any condition under which no statement
  -- fails, excludes.
  pub login-outcome :
      w.tx ≡ none
      → (calm → IsQuiet w)
      → Post LoggedIn NotLoggedIn (run (login a now username password) w)
  login-outcome closed quiet = (login-Runs closed quiet).post
