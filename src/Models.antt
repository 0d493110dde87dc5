-- ===== src/Models.antt =====
-- internal/models/models.go, and the tables of migrations/*.sql that hold these rows.
-- A UUID is its 128-bit value; a time is the database clock's, in microseconds.
use wallet_service.Prelude.{ℕ, ℤ, Text, List, Option}

abbrev pub Uuid : Type 0
Uuid = ℕ

abbrev pub Time : Type 0
Time = ℕ

pub record User : Type 0 where
  pub id : Uuid
  pub username : Text
  pub password_hash : Text
  pub created_at : Time

pub record Wallet : Type 0 where
  pub user_id : Uuid
  pub balance_paise : ℤ
  pub created_at : Time
  pub updated_at : Time

-- The strings "completed" and "reversed", the only ones that the column's CHECK admits.
pub data TransferStatus : Type 0 where
  completed reversed : TransferStatus

pub record Transfer : Type 0 where
  pub id : Uuid
  pub sender_id : Uuid
  pub recipient_id : Uuid
  pub amount_paise : ℤ
  pub idempotency_key : Text
  pub body_hash : Text
  pub sender_balance_after : ℤ
  pub status : TransferStatus
  pub created_at : Time
  pub reversed_at : Option Time
  pub sender_balance_after_reversal : Option ℤ

-- The fields of a models.Transfer that `InsertTransfer` reads.
pub record Draft : Type 0 where
  pub sender_id : Uuid
  pub recipient_id : Uuid
  pub amount_paise : ℤ
  pub idempotency_key : Text
  pub body_hash : Text
  pub sender_balance_after : ℤ

-- The three tables, rows in order of insertion.
pub record Db : Type 0 where
  pub users : List User
  pub wallets : List Wallet
  pub transfers : List Transfer
