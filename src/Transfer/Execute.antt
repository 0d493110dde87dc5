-- ===== src/Transfer/Execute.antt =====
-- Every way in which `Execute` ends, with what each leaves in the database.
pub mod Resolve
use wallet_service.Prelude.{
  ℕ, ℤ, pos, ◌≤ℤ◌, ◌<ℤ◌, ◌≤◌, ◌<◌, Text, length, text_eq, String, ◌≡◌, ◌≢◌, ◌⊎◌, Bool, true, false,
  none, some, List,
}
use wallet_service.Errors.{
  DbError, Error, sentinel, validation, database, wrapped, unknown_recipient, self_transfer,
  insufficient_funds, idempotency_conflict,
}
use wallet_service.Models.{Uuid, Time, User, Transfer, Db}
use wallet_service.Prog.{World}
use wallet_service.Sql.Tables.{find_username, find_key}
use wallet_service.Transfer.Hash.{hash_body}
use wallet_service.Transfer.{TransferService, TransferResult}
use wallet_service.Transfer.Transaction.{
  Order, IsTransfer, IsFeasible, transferred, sender_after, holds,
}

-- The arguments of `Execute`.
pub record Call : Type 0 where
  pub sender : Uuid
  pub to_username : Text
  pub amount : ℤ
  pub key : Text

-- An error of the driver, as it is or with a message in front.
abbrev pub IsStorage : Error → Type 0
IsStorage (database x) = Unit
IsStorage (wrapped _ (database x)) = Unit
IsStorage _ = ⊥

module _ (svc : TransferService) (k : Call) where
  abbrev pub call_hash : Text
  call_hash = hash_body svc.sha256 k.to_username k.amount

  abbrev pub order : User → Order
  order u = record {
    sender = k.sender;
    recipient = u.id;
    amount = k.amount;
    key = k.key;
    body_hash = call_hash;
  }

  abbrev pub stored : Transfer → TransferResult
  stored old = record {
    transfer_id = old.id;
    new_balance = old.sender_balance_after;
    replayed = true;
  }

  module _ (c : Db) (from : Time) where
    -- The transfer was applied, or its stored outcome is given again and nothing changes.
    pub data Executed (r : TransferResult) (w : World) : Type 0 where
      applied :
          (u : User) (t : Time)
          → find_username k.to_username c.users ≡ some u
          → k.sender ≢ u.id
          → from ≤ t
          → t ≤ w.clock
          → IsTransfer svc (order u) t c r
          → w.db ≡ transferred svc (order u) t r.transfer_id c
          → Executed r w
      replayed :
          (old : Transfer)
          → find_key k.sender k.key c.transfers ≡ some old
          → old.body_hash ≡ call_hash
          → r ≡ stored old
          → w.db ≡ c
          → Executed r w

    -- Why a call is refused.
    pub data Refusal (calm : Type 0) (e : Error) : Type 0 where
      bad_amount :
          k.amount ≤ℤ pos 0
          → e ≡ validation "amount_paise must be a positive integer"
          → Refusal calm e
      bad_key :
          (length k.key ≡ 0) ⊎ (128 < length k.key)
          → e ≡ validation "idempotency_key is required (1-128 chars)"
          → Refusal calm e
      no_recipient :
          find_username k.to_username c.users ≡ none
          → e ≡ sentinel unknown_recipient
          → Refusal calm e
      to_self :
          (u : User)
          → find_username k.to_username c.users ≡ some u
          → u.id ≡ k.sender
          → e ≡ sentinel self_transfer
          → Refusal calm e
      short :
          (u : User) (t : Time)
          → find_username k.to_username c.users ≡ some u
          → from ≤ t
          → find_key k.sender k.key c.transfers ≡ none
          → sender_after svc (order u) c <ℤ holds svc (order u) t c
          → e ≡ sentinel insufficient_funds
          → Refusal calm e
      conflict :
          (old : Transfer)
          → find_key k.sender k.key c.transfers ≡ some old
          → old.body_hash ≢ call_hash
          → e ≡ sentinel idempotency_conflict
          → Refusal calm e
      storage : IsStorage e → ¬ calm → Refusal calm e

    -- The call failed: nothing has changed, unless the answer to the commit was lost.
    pub data NotExecuted (calm : Type 0) (e : Error) (w : World) : Type 0 where
      refused : Refusal calm e → w.db ≡ c → NotExecuted calm e w
      commit_unknown :
          (u : User) (t : Time) (r : TransferResult) (x : DbError)
          → e ≡ wrapped "commit tx" (database x)
          → ¬ calm
          → find_username k.to_username c.users ≡ some u
          → k.sender ≢ u.id
          → from ≤ t
          → t ≤ w.clock
          → IsTransfer svc (order u) t c r
          → (w.db ≡ c) ⊎ (w.db ≡ transferred svc (order u) t r.transfer_id c)
          → NotExecuted calm e w
