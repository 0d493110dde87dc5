-- ===== src/Dto.antt =====
-- internal/dto/dto.go, and how encoding/json fills its requests. The scanner, from bytes to one
-- JSON value, is an argument of the handlers.
pub mod Filled
use wallet_service.Prelude.{
  ℕ, ◌+◌, ℤ, pos, Text, text, text_eq, List, [], ◌∷◌, Bool, true, false, ◌&&◌, leb, ◌==◌, Option,
  none, some, if◌then◌else◌, String,
}
use wallet_service.Models.{Time}
use wallet_service.Strconv.{parse_int}

pub record SignupRequest : Type 0 where
  pub username : Text
  pub password : Text

pub record AuthResponse : Type 0 where
  pub token : Text
  pub user_id : Text

pub record AccountResponse : Type 0 where
  pub user_id : Text
  pub balance_paise : ℤ

pub record BalanceResponse : Type 0 where
  pub balance_paise : ℤ
  pub available_paise : ℤ

pub record TransferRequest : Type 0 where
  pub to_user : Text
  pub amount_paise : ℤ
  pub idempotency_key : Text

pub record TransferResponse : Type 0 where
  pub transfer_id : Text
  pub new_balance : ℤ

pub record TransferDetails : Type 0 where
  pub transfer_id : Text
  pub sender_id : Text
  pub recipient_id : Text
  pub amount_paise : ℤ
  pub status : Text
  pub created_at : Time
  pub reversed_at : Option Time

pub record ClaimResponse : Type 0 where
  pub transfer_id : Text
  pub status : Text
  pub new_balance : ℤ
  pub reversed_at : Time

pub record ErrorResponse : Type 0 where
  pub success : Bool
  pub message : String
  pub error : String

-- A value of a member: a number as it is spelled, and arrays and objects by their kind alone, which
-- no field of a request takes.
pub data Value : Type 0 where
  null array object : Value
  boolean : Bool → Value
  number string : Text → Value

-- A whole body: an object with its members in order, or another value.
pub data Json : Type 0 where
  members : List (Text × Value) → Json
  value : Value → Json

-- The case folding of encoding/json on a key: U+017F folds to an s and U+212A to a k, and no other
-- sequence beyond ASCII to a letter of a field's name.
abbrev lower : ℕ → ℕ
lower c = if leb b'A' c && leb c b'Z' then c + 32 else c

unfoldable pub fold_name : Text → Text
fold_name [] = []
fold_name (a ∷ []) = lower a ∷ []
fold_name (a ∷ b ∷ []) = if a == 197 && b == 191 then b's' ∷ [] else lower a ∷ lower b ∷ []
fold_name (a ∷ b ∷ c ∷ s) =
    let rest₁ = fold_name s in
    let rest₂ = fold_name (c ∷ s) in
    let rest₃ = fold_name (b ∷ c ∷ s) in
    if a == 197 && b == 191
    then b's' ∷ rest₂
    else if a == 226 && b == 132 && c == 170
    then b'k' ∷ rest₁
    else lower a ∷ rest₃

-- A member's key names a field, exactly or up to case.
unfoldable pub names : Text → Text → Bool
names key field = text_eq (fold_name key) field

infixl 5 ◌>>=◌
abbrev ◌>>=◌ : {A B : Type 0} → Option A → (A → Option B) → Option B
none >>= f = none
some a >>= f = f a

-- A value for a field of type string or int64; null leaves the field as it is.
unfoldable pub read_string : Value → Text → Option Text
read_string null old = some old
read_string (string s) old = some s
read_string _ old = none

unfoldable pub read_int64 : Value → ℤ → Option ℤ
read_int64 null old = some old
read_int64 (number s) old = parse_int s
read_int64 _ old = none

-- One member into a request; `none` for a field that is unknown or of another type.
unfoldable pub set_signup : Text → Value → SignupRequest → Option SignupRequest
set_signup key v req =
    if names key (text "username")
    then (do s ← read_string v req.username; some (record req { username = s }))
    else if names key (text "password")
    then (do s ← read_string v req.password; some (record req { password = s }))
    else none

unfoldable pub set_transfer : Text → Value → TransferRequest → Option TransferRequest
set_transfer key v req =
    if names key (text "to_user")
    then (do s ← read_string v req.to_user; some (record req { to_user = s }))
    else if names key (text "amount_paise")
    then (do n ← read_int64 v req.amount_paise; some (record req { amount_paise = n }))
    else if names key (text "idempotency_key")
    then (do s ← read_string v req.idempotency_key; some (record req { idempotency_key = s }))
    else none

-- Every member in order: the last one of a name counts.
unfoldable pub fill :
    {A : Type 0} → (Text → Value → A → Option A) → List (Text × Value) → A → Option A
fill set [] req = some req
fill set ((key, v) ∷ ms) req = do next ← set key v req; fill set ms next

-- `Decode(&req)` with DisallowUnknownFields, where `req` is the zero value.
unfoldable pub decode_into : {A : Type 0} → (Text → Value → A → Option A) → A → Json → Option A
decode_into set zero (members ms) = fill set ms zero
decode_into set zero (value null) = some zero
decode_into set zero (value _) = none

abbrev pub no_signup : SignupRequest
no_signup = record { username = []; password = [] }

abbrev pub no_transfer : TransferRequest
no_transfer = record { to_user = []; amount_paise = pos 0; idempotency_key = [] }
