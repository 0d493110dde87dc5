-- ===== src/Auth.antt =====
-- internal/service/auth.go: AuthService. The libraries that it calls, bcrypt, jwt and uuid, are one
-- argument; Auth/Tokens has what their documentation says of the tokens.
pub mod Tokens
pub mod Outcome
pub mod Users
pub mod Login
pub mod Accounts
use wallet_service.Prelude.{
  ℕ, ◌+◌, String, Text, text, length, all, Bool, true, not, ◌&&◌, ◌||◌, ltb, leb, Option, none,
  some, List, [], ◌∷◌, if◌then◌else◌,
}
use wallet_service.Errors.{
  sentinel, validation, wrapped, external, errors_is, repo_duplicate, repo_not_found,
  username_taken, invalid_credentials,
}
use wallet_service.Models.{Uuid, User}
use wallet_service.Prog.{Prog, ret, fail, Result, ok, err, attempt, ◌>>=◌}
use wallet_service.Repository.{create_user, get_user_by_username}

-- The fields of `jwt.RegisteredClaims` that a token of this service has, and the one that would
-- put its use off. A date is what `jwt.NewNumericDate` makes of a time in nanoseconds.
pub record Claims : Type 0 where
  pub subject : Text
  pub issued_at : Option ℕ
  pub expires_at : Option ℕ
  pub not_before : Option ℕ

-- A `*jwt.Token` as it is read here.
pub record Token : Type 0 where
  pub claims : Claims
  pub valid : Bool

-- `jwt.WithValidMethods` and `jwt.WithExpirationRequired`
pub record ParserOptions : Type 0 where
  pub valid_methods : List Text
  pub expiration_required : Bool

-- What is called of the libraries, `none` for an error: a hash takes the salt that bcrypt draws, and
-- a parse the time at which it is done.
pub record Libraries : Type 0 where
  pub generate_from_password : Text → ℕ → Text → Option Text
  pub compare_hash_and_password : Text → Text → Bool
  pub numeric_date : ℕ → ℕ
  pub signed_string : Text → Claims → Text → Option Text
  pub parse_with_claims : Text → Text → ParserOptions → ℕ → Option Token
  pub get_subject : Claims → Option Text
  pub uuid_string : Uuid → Text
  pub uuid_parse : Text → Option Uuid

pub record AuthService : Type 0 where
  pub libraries : Libraries
  pub secret : Text
  pub token_ttl : ℕ

-- The class `[a-zA-Z0-9_.-]`, by its character codes.
abbrev between : ℕ → ℕ → ℕ → Bool
between low high c = leb low c && leb c high

unfoldable pub username_char : ℕ → Bool
username_char c =
    between 97 122 c || between 65 90 c || between 48 57 c || between 95 95 c || between 45 46 c

-- `usernameRe.MatchString(username)`
unfoldable pub username_re : Text → Bool
username_re username =
    all username_char username && leb 3 (length username) && leb (length username) 32

-- `len(password) < 8 || len(password) > 72`
unfoldable pub password_rejected : Text → Bool
password_rejected password = ltb (length password) 8 || ltb 72 (length password)

-- `jwt.SigningMethodHS256.Alg()` and `bcrypt.DefaultCost`
abbrev pub hs256 : Text
hs256 = text "HS256"

abbrev pub default_cost : ℕ
default_cost = 10

unfoldable pub issue_token : AuthService → ℕ → Uuid → Option Text
issue_token a now user_id =
    a.libraries.signed_string hs256
      (record {
        subject = a.libraries.uuid_string user_id;
        issued_at = some (a.libraries.numeric_date now);
        expires_at = some (a.libraries.numeric_date (now + a.token_ttl));
        not_before = none;
      })
      a.secret

abbrev pub issued : User → Option Text → Prog (User × Text)
issued user none = fail (external "sign token")
issued user (some token) = ret (user, token)

abbrev pub hashed : Option Text → Prog Text
hashed none = fail (wrapped "hash password" (external "bcrypt"))
hashed (some hash) = ret hash

abbrev pub new_user : Result User → Prog User
new_user (ok user) = ret user
new_user (err e) = if errors_is e repo_duplicate then fail (sentinel username_taken) else fail e

-- Signup at the time `now`, with `salt` for what bcrypt draws.
unfoldable pub signup : AuthService → Text → ℕ → Text → Text → Prog (User × Text)
signup a salt now username password =
    if not (username_re username)
    then fail (validation "username must be 3-32 chars of letters, digits, '_', '.', '-'")
    else if password_rejected password
    then fail (validation "password must be 8-72 characters")
    else (do
      hash ← hashed (a.libraries.generate_from_password password default_cost salt)
      made ← attempt (create_user username hash)
      user ← new_user made
      issued user (issue_token a now user.id))

abbrev pub credentials : Result User → Prog User
credentials (ok user) = ret user
credentials (err e) =
    if errors_is e repo_not_found then fail (sentinel invalid_credentials) else fail e

abbrev pub check_password : AuthService → Text → User → Prog User
check_password a password user =
    if not (a.libraries.compare_hash_and_password user.password_hash password)
    then fail (sentinel invalid_credentials)
    else ret user

unfoldable pub login : AuthService → ℕ → Text → Text → Prog (User × Text)
login a now username password = do
  found ← attempt (get_user_by_username username)
  known ← credentials found
  user ← check_password a password known
  issued user (issue_token a now user.id)

abbrev pub parser_options : ParserOptions
parser_options = record { valid_methods = hs256 ∷ []; expiration_required = true }

-- The end of VerifyToken: the id that the subject spells.
abbrev pub subject_id : AuthService → Claims → Result Uuid
subject_id a claims = elim (a.libraries.get_subject claims) [
  | none ↦ err (sentinel invalid_credentials)
  | some sub ↦ elim (a.libraries.uuid_parse sub) [
    | none ↦ err (sentinel invalid_credentials)
    | some id ↦ ok id
  ]
]

-- VerifyToken at the time `now`.
unfoldable pub verify_token : AuthService → ℕ → Text → Result Uuid
verify_token a now token_string =
    elim (a.libraries.parse_with_claims token_string a.secret parser_options now) [
      | none ↦ err (sentinel invalid_credentials)
      | some token ↦
          if not token.valid then err (sentinel invalid_credentials) else subject_id a token.claims
    ]
