-- ===== src/Tests/Auth.antt =====
-- The theorems on signup, login and tokens at a state with two users.
use wallet_service.Prelude.{
  ℕ, ◌+◌, ltb, text, text_eq, ◌≡◌, refl, ◌⊎◌, some, none, [], ◌∷◌, ◌++◌, List, if◌then◌else◌,
}
use wallet_service.Errors.{sentinel, invalid_credentials}
use wallet_service.Models.{User}
use wallet_service.Sql.{run_query, run_insert_user}
use wallet_service.Sql.Tables.{find_user, find_username, find_transfer}
use wallet_service.Prog.{World, Outcome, Result, run, do_effect}
use wallet_service.Prog.Logic.{Post}
use wallet_service.Repository.{create_user}
use wallet_service.Auth.{
  username_char, username_re, password_rejected, issue_token, signup, login, verify_token,
}
use wallet_service.Auth.Tokens.{Identifies, verify_token-outcome, verify_token-issue_token}
use wallet_service.Auth.Outcome.{SignedUp, NotSignedUp, signup-outcome}
use wallet_service.Auth.Users.{Enrolled, signup-Enrolled}
use wallet_service.Auth.Login.{LoggedIn, NotLoggedIn, login-outcome}
use wallet_service.Auth.Accounts.{login-signup}
use wallet_service.Guarantees.{IsQuiet}
use wallet_service.Tests.Data.{empty, alice, bob}
use wallet_service.Tests.Examples.{empty-IsQuiet}
use wallet_service.Tests.Libraries.{libraries, auth, libraries-Dependable, libraries-Documented}

-- At second 5 after the epoch.
abbrev now : ℕ
now = 5000000000

abbrev carol : User
carol = record {
  id = 20;
  username = text "carol";
  password_hash = text "password1";
  created_at = 1;
}

-- 5 and 86405 seconds, the id 20, and the secret.
abbrev carol_token : List ℕ
carol_token = 5000000001 ∷ 86405000000001 ∷ 20 ∷ auth.secret

signed_up :
    (run (signup auth [] now (text "carol") (text "password1")) empty).0
    ≡ Outcome.ok (carol, carol_token)
unfolding signup run do_effect run_query create_user run_insert_user find_username find_user text_eq
    username_re username_char password_rejected issue_token
signed_up = refl

carol_issued : issue_token auth now 20 ≡ some carol_token
unfolding issue_token
carol_issued = refl

-- The state that the signup leaves.
abbrev joined : World
joined = record empty { db = record empty.db { users = alice ∷ bob ∷ carol ∷ [] }; clock = 50 }

joined_users :
    joined.db.users
    ≡ (run (signup auth [] now (text "carol") (text "password1")) empty).1.db.users ++ []
unfolding signup run do_effect run_query create_user run_insert_user find_username find_user text_eq
    username_re username_char password_rejected issue_token
joined_users = refl

joined-IsQuiet : IsQuiet joined
unfolding find_transfer
joined-IsQuiet n = (refl, refl)

verify_token-outcome_example :
    ((id : ℕ) × (verify_token auth now carol_token ≡ Result.ok id)
      × Identifies auth libraries-Documented now carol_token id)
    ⊎ (verify_token auth now carol_token ≡ Result.err (sentinel invalid_credentials))
verify_token-outcome_example = verify_token-outcome auth libraries-Documented now carol_token

verify_token-issue_token_example : verify_token auth 6000000000 carol_token ≡ (
    if ltb 6000000000 86405000000000
    then Result.ok 20
    else Result.err (sentinel invalid_credentials))
verify_token-issue_token_example =
    verify_token-issue_token auth libraries-Documented 20 now carol_token carol_issued 6000000000

signup-outcome_example :
    Post
      (λ r w'.
        SignedUp auth [] now
          (text "carol")
          (text "password1")
          empty.db
          0
          (empty.nature 0).uuid
          Unit
          r
          w'
        × (w'.tx ≡ none))
      (λ e w'.
        NotSignedUp auth [] now
          (text "carol")
          (text "password1")
          empty.db
          0
          (empty.nature 0).uuid
          Unit
          e
          w'
        × (w'.tx ≡ none))
      (run (signup auth [] now (text "carol") (text "password1")) empty)
signup-outcome_example =
    signup-outcome auth [] now (text "carol") (text "password1") empty Unit refl
      (λ _. empty-IsQuiet)

signup-Enrolled_example :
    Enrolled empty.db (run (signup auth [] now (text "carol") (text "password1")) empty).1
signup-Enrolled_example = signup-Enrolled auth [] now (text "carol") (text "password1") empty refl

login-outcome_example :
    Post
      (LoggedIn auth now (text "carol") (text "password1") joined Unit)
      (NotLoggedIn auth now (text "carol") (text "password1") joined Unit)
      (run (login auth now (text "carol") (text "password1")) joined)
login-outcome_example =
    login-outcome auth now (text "carol") (text "password1") joined Unit refl (λ _. joined-IsQuiet)

login-signup_example :
    (token : List ℕ) × ((run (login auth 6000000000 (text "carol") (text "password1")) joined).0
      ≡ Outcome.ok (carol, token))
    × ((later : ℕ)
        → verify_token auth later token ≡ (
            if ltb later (libraries.numeric_date (6000000000 + auth.token_ttl))
            then Result.ok 20
            else Result.err (sentinel invalid_credentials)))
login-signup_example =
    login-signup auth libraries-Dependable libraries-Documented [] now 6000000000 (text "carol")
      (text "password1") empty joined (carol, carol_token) [] refl signed_up refl joined-IsQuiet
      joined_users
