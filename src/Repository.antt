-- ===== src/Repository.antt =====
-- internal/repository: the Store's and the Tx's methods, one SQL statement each but for
-- `GetOrCreateWallet`, and `WithTx`.
pub mod InTx
pub mod Methods
pub mod WithTx
pub mod Idle
pub mod Alone
use wallet_service.Prelude.{
  ℕ, ℤ, Text, Bool, true, false, not, Option, none, some, ◌==◌, if◌then◌else◌,
}
use wallet_service.Errors.{
  DbError, Error, sentinel, database, wrapped, repo_not_found, repo_duplicate, pgx_no_rows,
  is_unique_violation,
}
use wallet_service.Models.{Uuid, Time, User, Transfer, Draft}
use wallet_service.Sql.{Answer, row, no_rows, rejected, Query}
use wallet_service.Sql
use wallet_service.Prog.{
  Prog, ret, fail, Effect, act, Result, ok, err, attempt, from_result, defer_rollback, ◌>>=◌, ◌>>◌,
}

-- `QueryRow(…).Scan(…)` and `Exec(…)`
abbrev pub scan : {R : Type 0} → Answer R → Prog R
scan (row r) = ret r
scan no_rows = fail (sentinel pgx_no_rows)
scan (rejected e) = fail (database e)

-- The same followed by `mapNoRows`.
abbrev pub scan_found : {R : Type 0} → Answer R → Prog R
scan_found (row r) = ret r
scan_found no_rows = fail (sentinel repo_not_found)
scan_found (rejected e) = fail (database e)

-- Where `pgx.ErrNoRows` is an outcome of its own.
abbrev pub scan_optional : {R : Type 0} → Answer R → Prog (Option R)
scan_optional (row r) = ret (some r)
scan_optional no_rows = ret none
scan_optional (rejected e) = fail (database e)

-- Store.Ping
unfoldable pub ping : Prog Unit
ping = do r ← act (Effect.query Sql.ping); scan r

-- Store.CreateUser
abbrev pub created_user : Result User → Prog User
created_user (ok u) = ret u
created_user (err e) = if is_unique_violation e then fail (sentinel repo_duplicate) else fail e

unfoldable pub create_user : Text → Text → Prog User
create_user username password_hash = do
  r ← act (Effect.query (Sql.insert_user username password_hash))
  u ← attempt (scan r)
  created_user u

-- Store.GetUserByUsername and GetUserByID
unfoldable pub get_user_by_username : Text → Prog User
get_user_by_username username = do
  r ← act (Effect.query (Sql.select_user_by_username username))
  scan_found r

unfoldable pub get_user_by_id : Uuid → Prog User
get_user_by_id id = do r ← act (Effect.query (Sql.select_user_by_id id)); scan_found r

-- Store.GetTransferByID and GetTransferBySenderKey
unfoldable pub get_transfer_by_id : Uuid → Prog Transfer
get_transfer_by_id id = do r ← act (Effect.query (Sql.select_transfer_by_id id)); scan_found r

unfoldable pub get_transfer_by_sender_key : Uuid → Text → Prog Transfer
get_transfer_by_sender_key sender_id key = do
  r ← act (Effect.query (Sql.select_transfer_by_sender_key sender_id key))
  scan_found r

-- Tx.WalletExists
unfoldable pub wallet_exists : Uuid → Prog Bool
wallet_exists user_id = do r ← act (Effect.query (Sql.select_wallet_exists user_id)); scan r

-- Tx.InsertWallet: whether the row is new.
unfoldable pub insert_wallet : Uuid → ℤ → Prog Bool
insert_wallet user_id seed_paise = do
  r ← act (Effect.query (Sql.insert_wallet user_id seed_paise))
  affected ← scan r
  ret (affected == 1)

-- Tx.LockWallet
unfoldable pub lock_wallet : Uuid → Prog ℤ
lock_wallet user_id = do
  r ← act (Effect.query (Sql.select_balance_for_update user_id))
  scan_found r

-- Tx.InsertTransfer: the new id, or `none` for inserted=false.
unfoldable pub insert_transfer : Draft → Prog (Option Uuid)
insert_transfer tr = do r ← act (Effect.query (Sql.insert_transfer tr)); scan_optional r

-- Tx.SumActiveHolds
unfoldable pub sum_active_holds : Uuid → ℕ → Prog ℤ
sum_active_holds user_id window = do
  r ← act (Effect.query (Sql.select_active_holds user_id window))
  scan r

-- Tx.MarkReversed: the time of the reversal, or `none` for reversed=false.
unfoldable pub mark_reversed : Uuid → ℕ → ℤ → Prog (Option Time)
mark_reversed transfer_id window sender_balance_after = do
  r ← act (Effect.query (Sql.update_reversed transfer_id window sender_balance_after))
  scan_optional r

-- Tx.UpdateWalletBalance
unfoldable pub update_wallet_balance : Uuid → ℤ → Prog Unit
update_wallet_balance user_id new_balance = do
  r ← act (Effect.query (Sql.update_balance user_id new_balance))
  scan r
  ret tt

-- Store.GetOrCreateWallet
pub record WalletCreation : Type 0 where
  pub balance : ℤ
  pub created : Bool
  pub race_lost : Bool

abbrev pub insert_if_absent : Bool → Uuid → ℤ → Prog (Bool × Bool)
insert_if_absent true user_id seed_paise = ret (false, false)
insert_if_absent false user_id seed_paise = do
  r ← act (Effect.query (Sql.insert_wallet user_id seed_paise))
  affected ← scan r
  ret (affected == 1, not (affected == 1))

unfoldable pub get_or_create_wallet : Uuid → ℤ → Prog WalletCreation
get_or_create_wallet user_id seed_paise = do
  r ← act (Effect.query (Sql.select_wallet_exists user_id))
  exists ← scan r
  made ← insert_if_absent exists user_id seed_paise
  s ← act (Effect.query (Sql.select_balance user_id))
  balance ← scan_found s
  ret (record { balance = balance; created = made.0; race_lost = made.1 })

-- Store.GetWalletBalances
unfoldable pub get_wallet_balances : Uuid → ℕ → Prog (ℤ × ℤ)
get_wallet_balances user_id window = do
  r ← act (Effect.query (Sql.select_balances user_id window))
  scan_found r

-- Store.WithTx
abbrev pub begun : Option DbError → Prog Unit
begun none = ret tt
begun (some e) = fail (wrapped "begin tx" (database e))

abbrev pub committed : {A : Type 0} → A → Option DbError → Prog A
committed a none = ret a
committed a (some e) = fail (wrapped "commit tx" (database e))

abbrev pub then_commit : {A : Type 0} → Prog A → Prog A
then_commit body = do a ← body; c ← act Effect.commit; committed a c

unfoldable pub with_tx : {A : Type 0} → Prog A → Prog A
with_tx body = do b ← act Effect.begin; begun b; defer_rollback (then_commit body)
