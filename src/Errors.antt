-- ===== src/Errors.antt =====
-- The errors of internal/service/errors.go, internal/repository/store.go and
-- internal/service/transfer.go, and how Go's `errors.Is` and `errors.As` read them.
use wallet_service.Prelude.{ℕ, String, Bool, true, false, Option, none, some, ◌==◌, if◌then◌else◌}

-- Each value made by `errors.New`: the domain errors, the repository's, the two that abort a
-- transaction, and the driver's `pgx.ErrNoRows`.
pub data Sentinel : Type 0 where
  username_taken invalid_credentials unknown_recipient self_transfer no_wallet : Sentinel
  insufficient_funds idempotency_conflict not_found claim_window_expired : Sentinel
  repo_not_found repo_duplicate : Sentinel
  key_exists claim_not_applied : Sentinel
  pgx_no_rows : Sentinel

-- What the database driver reports: no answer in time, or a constraint of the schema.
pub data DbError : Type 0 where
  unavailable unique_violation check_violation foreign_key_violation out_of_range : DbError

-- `fmt.Errorf("…: %w", err)` is `wrapped`, `Invalid(msg)` is `validation`; `external` is an error
-- that no code looks into: another library's, or one of `fmt.Errorf` without `%w`.
pub data Error : Type 0 where
  sentinel : Sentinel → Error
  validation : String → Error
  database : DbError → Error
  wrapped : String → Error → Error
  external : String → Error

abbrev pub index : Sentinel → ℕ
index username_taken = 0
index invalid_credentials = 1
index unknown_recipient = 2
index self_transfer = 3
index no_wallet = 4
index insufficient_funds = 5
index idempotency_conflict = 6
index not_found = 7
index claim_window_expired = 8
index repo_not_found = 9
index repo_duplicate = 10
index key_exists = 11
index claim_not_applied = 12
index pgx_no_rows = 13

-- `errors.Is(err, target)`
abbrev pub errors_is : Error → Sentinel → Bool
errors_is (sentinel s) t = index s == index t
errors_is (wrapped _ e) t = errors_is e t
errors_is _ t = false

-- `errors.As(err, &ve)`, with the message found.
abbrev pub as_validation : Error → Option String
as_validation (validation msg) = some msg
as_validation (wrapped _ e) = as_validation e
as_validation _ = none

-- `isUniqueViolation`
unfoldable pub is_unique_violation : Error → Bool
is_unique_violation (database unique_violation) = true
is_unique_violation (wrapped _ e) = is_unique_violation e
is_unique_violation _ = false

-- `mapRepoNotFound`
unfoldable pub map_repo_not_found : Error → Error → Error
map_repo_not_found err domain_err = if errors_is err repo_not_found then domain_err else err
