-- ===== src/Sql.antt =====
-- The SQL statements of internal/repository/*.go, over the tables and constraints of
-- migrations/0001_init.up.sql and the migration that adds claim-backs.
pub mod Tables
pub mod Effects
pub mod Answers
use wallet_service.Prelude.{
  ℕ, ◌+◌, ℤ, pos, ◌+ℤ◌, ◌-ℤ◌, ltb_ℤ, leb_ℤ, in_range, Text, text_eq, Bool, true, false, ◌&&◌, ◌||◌,
  Option, none, some, List, [], ◌∷◌, ◌++◌, ◌==◌, ltb, if◌then◌else◌,
}
use wallet_service.Errors.{
  DbError, unique_violation, check_violation, foreign_key_violation, out_of_range,
}
use wallet_service.Models.{
  Uuid, Time, User, Wallet, Transfer, TransferStatus, completed, reversed, Draft, Db,
}
use Tables.{
  find_user, find_username, find_wallet, set_balance, find_transfer, find_key, is_active,
  active_holds, reverse,
}

-- What a row query or an `Exec` gives: its row or tag, `pgx.ErrNoRows`, or an error.
pub data Answer (R : Type 0) : Type 0 where
  row : R → Answer R
  no_rows : Answer R
  rejected : DbError → Answer R

pub data Query : Type 0 where
  ping : Query
  insert_user : Text → Text → Query
  select_user_by_username : Text → Query
  select_user_by_id : Uuid → Query
  select_wallet_exists : Uuid → Query
  insert_wallet : Uuid → ℤ → Query
  select_balance : Uuid → Query
  select_balance_for_update : Uuid → Query
  select_balances : Uuid → ℕ → Query
  insert_transfer : Draft → Query
  select_active_holds : Uuid → ℕ → Query
  update_reversed : Uuid → ℕ → ℤ → Query
  update_balance : Uuid → ℤ → Query
  select_transfer_by_id : Uuid → Query
  select_transfer_by_sender_key : Uuid → Text → Query

-- What is scanned from the row, or the number of rows affected.
abbrev pub Row : Query → Type 0
Row ping = Unit
Row (insert_user _ _) = User
Row (select_user_by_username _) = User
Row (select_user_by_id _) = User
Row (select_wallet_exists _) = Bool
Row (insert_wallet _ _) = ℕ
Row (select_balance _) = ℤ
Row (select_balance_for_update _) = ℤ
Row (select_balances _ _) = ℤ × ℤ
Row (insert_transfer _) = Uuid
Row (select_active_holds _ _) = ℤ
Row (update_reversed _ _ _) = Time
Row (update_balance _ _) = ℕ
Row (select_transfer_by_id _) = Transfer
Row (select_transfer_by_sender_key _ _) = Transfer

abbrev pub from_option : {R : Type 0} → Option R → Answer R
from_option none = no_rows
from_option (some r) = row r

abbrev pub known : Uuid → Db → Bool
known id d = elim (find_user id d.users) [ none ↦ false | some _ ↦ true ]

-- `Scan` into an int64.
abbrev pub scan_int64 : ℤ → Answer ℤ
scan_int64 z = if in_range z then row z else rejected out_of_range

-- The rows as they are inserted, with the columns' defaults.
abbrev pub new_wallet : Uuid → ℤ → Time → Wallet
new_wallet user_id seed now = record {
  user_id = user_id;
  balance_paise = seed;
  created_at = now;
  updated_at = now;
}

abbrev pub recorded : Draft → Time → Uuid → Transfer
recorded tr now id = record {
  id = id;
  sender_id = tr.sender_id;
  recipient_id = tr.recipient_id;
  amount_paise = tr.amount_paise;
  idempotency_key = tr.idempotency_key;
  body_hash = tr.body_hash;
  sender_balance_after = tr.sender_balance_after;
  status = completed;
  created_at = now;
  reversed_at = none;
  sender_balance_after_reversal = none;
}

-- ON CONFLICT (user_id) DO NOTHING; the CHECK comes first, the foreign key last.
unfoldable pub run_insert_wallet : Uuid → ℤ → Time → Db → Answer ℕ × Db
run_insert_wallet user_id seed now d =
    if ltb_ℤ seed (pos 0)
    then (rejected check_violation, d)
    else elim (find_wallet user_id d.wallets) [
      | some _ ↦ (row 0, d)
      | none ↦
          if known user_id d
          then (row 1, record d { wallets = d.wallets ++ new_wallet user_id seed now ∷ [] })
          else (rejected foreign_key_violation, d)
    ]

-- UPDATE … WHERE user_id = $1, under CHECK (balance_paise >= 0).
unfoldable pub run_update_balance : Uuid → ℤ → Time → Db → Answer ℕ × Db
run_update_balance user_id new_balance now d = elim (find_wallet user_id d.wallets) [
  | none ↦ (row 0, d)
  | some _ ↦
      if ltb_ℤ new_balance (pos 0)
      then (rejected check_violation, d)
      else (row 1, record d { wallets = set_balance user_id new_balance now d.wallets })
]

-- ON CONFLICT (sender_id, idempotency_key) DO NOTHING RETURNING id.
unfoldable pub run_insert_transfer : Draft → Time → Uuid → Db → Answer Uuid × Db
run_insert_transfer tr now id d =
    if leb_ℤ tr.amount_paise (pos 0)
    then (rejected check_violation, d)
    else elim (find_key tr.sender_id tr.idempotency_key d.transfers) [
      | some _ ↦ (no_rows, d)
      | none ↦ elim (find_transfer id d.transfers) [
        | some _ ↦ (rejected unique_violation, d)
        | none ↦
            if known tr.sender_id d && known tr.recipient_id d
            then (row id, record d { transfers = d.transfers ++ recorded tr now id ∷ [] })
            else (rejected foreign_key_violation, d)
      ]
    ]

-- UPDATE … WHERE id = $1 AND status = 'completed' AND created_at > now() - window.
unfoldable pub run_update_reversed : Uuid → ℕ → ℤ → Time → Db → Answer Time × Db
run_update_reversed id window after now d = elim (find_transfer id d.transfers) [
  | none ↦ (no_rows, d)
  | some tr ↦
      if is_active window now tr
      then (row now, record d { transfers = reverse id now after d.transfers })
      else (no_rows, d)
]

-- The UNIQUE (username) and the primary key.
unfoldable pub run_insert_user : Text → Text → Time → Uuid → Db → Answer User × Db
run_insert_user username password_hash now id d = elim (find_username username d.users) [
  | some _ ↦ (rejected unique_violation, d)
  | none ↦
      if known id d
      then (rejected unique_violation, d)
      else let u : User = record {
        id = id;
        username = username;
        password_hash = password_hash;
        created_at = now;
      } in
        (row u, record d { users = d.users ++ u ∷ [] })
]

abbrev pub balance_of : Uuid → Db → Answer ℤ
balance_of user_id d = elim (find_wallet user_id d.wallets) [
  | none ↦ no_rows
  | some w ↦ row w.balance_paise
]

abbrev pub balances_of : Uuid → ℕ → Time → Db → Answer (ℤ × ℤ)
balances_of user_id window now d = elim (find_wallet user_id d.wallets) [
  | none ↦ no_rows
  | some w ↦
      let available = w.balance_paise -ℤ active_holds user_id window now d.transfers in
      if in_range available then row (w.balance_paise, available) else rejected out_of_range
]

-- A statement at the time `now`, with `id` for what gen_random_uuid() gives.
unfoldable pub run_query : (q : Query) → Time → Uuid → Db → Answer (Row q) × Db
run_query ping now id d = (row tt, d)
run_query (insert_user name hash) now id d = run_insert_user name hash now id d
run_query (select_user_by_username name) now id d = (from_option (find_username name d.users), d)
run_query (select_user_by_id user_id) now id d = (from_option (find_user user_id d.users), d)
run_query (select_wallet_exists user_id) now id d =
    (row (elim (find_wallet user_id d.wallets) [ none ↦ false | some _ ↦ true ]), d)
run_query (insert_wallet user_id seed) now id d = run_insert_wallet user_id seed now d
run_query (select_balance user_id) now id d = (balance_of user_id d, d)
run_query (select_balance_for_update user_id) now id d = (balance_of user_id d, d)
run_query (select_balances user_id window) now id d = (balances_of user_id window now d, d)
run_query (insert_transfer tr) now id d = run_insert_transfer tr now id d
run_query (select_active_holds user_id window) now id d =
    (scan_int64 (active_holds user_id window now d.transfers), d)
run_query (update_reversed tr_id window after) now id d =
    run_update_reversed tr_id window after now d
run_query (update_balance user_id new_balance) now id d =
    run_update_balance user_id new_balance now d
run_query (select_transfer_by_id tr_id) now id d =
    (from_option (find_transfer tr_id d.transfers), d)
run_query (select_transfer_by_sender_key sender key) now id d =
    (from_option (find_key sender key d.transfers), d)
