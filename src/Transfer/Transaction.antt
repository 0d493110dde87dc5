-- ===== src/Transfer/Transaction.antt =====
-- The transaction of `Execute`, statement by statement: what it leaves in its tables when it
-- returns, and why it is aborted when it does not.
pub mod Body
use wallet_service.Prelude.{
  ℕ, ℤ, pos, ◌+ℤ◌, ◌-ℤ◌, ◌≤ℤ◌, ◌<ℤ◌, ltb_ℤ, InRange, wrap64, Text, ◌≡◌, ◌≢◌, refl, sym, ◌∙◌, ◌⊎◌,
  inl, inr, Bool, true, false, Option, none, some, List, [], ◌∷◌, arith, All, Bool-cases, ◌==◌,
}
use wallet_service.Errors.{Error, sentinel, database, DbError, key_exists, insufficient_funds}
use wallet_service.Models.{Uuid, Time, Transfer, Draft, Db}
use wallet_service.Sql.{known}
use wallet_service.Sql.Tables.{find_key, find_transfer, active_holds}
use wallet_service.Sql.Tables.Balances.{balance?, balance?-set_balance}
use wallet_service.Sql.Effects.{open_wallets, add_transfer, put_balance}
use wallet_service.Sql.Effects.Opened.{
  transfers-open_wallets, users-open_wallets, balance?-open_wallets,
}
use wallet_service.Prog.{World}
use wallet_service.Prog.Logic.{Runs, Runs-ret, Runs-fail, Runs-bind, Runs-weaken}
use wallet_service.Repository.InTx.{InTx, Failed}
use wallet_service.Repository.Methods.{
  sum_active_holds-InTx, insert_transfer-InTx, update_wallet_balance-InTx, Inserted,
}
use wallet_service.Transfer.{
  TransferService, TransferResult, Balances, balance_at, sort_ids, draft, settle, transfer_tx,
  ensure_wallets, lock_wallets,
}
use wallet_service.Transfer.Steps.{ensure_wallets-InTx, lock_wallets-InTx, sort_ids-cases}

-- A call of the transaction's function.
pub record Order : Type 0 where
  pub sender : Uuid
  pub recipient : Uuid
  pub amount : ℤ
  pub key : Text
  pub body_hash : Text

module _ (svc : TransferService) (o : Order) where
  -- The tables with both wallets open.
  abbrev pub opened : Time → Db → Db
  opened t d = open_wallets svc.seed_paise t (sort_ids svc.uuid_string o.sender o.recipient) d

  -- The balance before the transfer: the seed, for a wallet that is new.
  abbrev pub balance_or_seed : Uuid → Db → ℤ
  balance_or_seed id d = elim (balance? id d.wallets) [ none ↦ svc.seed_paise | some b ↦ b ]

  abbrev pub sender_after : Db → ℤ
  sender_after d = wrap64 (balance_or_seed o.sender d -ℤ o.amount)

  abbrev pub recipient_after : Db → ℤ
  recipient_after d = wrap64 (balance_or_seed o.recipient d +ℤ o.amount)

  abbrev pub holds : Time → Db → ℤ
  holds t d = active_holds o.sender svc.claim_window t d.transfers

  abbrev pub order_draft : Db → Draft
  order_draft d = record {
    sender_id = o.sender;
    recipient_id = o.recipient;
    amount_paise = o.amount;
    idempotency_key = o.key;
    body_hash = o.body_hash;
    sender_balance_after = sender_after d;
  }

  -- The tables after the transfer.
  unfoldable pub transferred : Time → Uuid → Db → Db
  transferred t id d =
      put_balance o.recipient (recipient_after d) t
        (put_balance o.sender (sender_after d) t (add_transfer (order_draft d) t id (opened t d)))

  -- Why a transfer may go through, and what it returns.
  pub record IsTransfer (t : Time) (d : Db) (r : TransferResult) : Type 0 where
    pub unclaimed : find_key o.sender o.key d.transfers ≡ none
    pub fresh : find_transfer r.transfer_id d.transfers ≡ none
    pub positive : pos 0 <ℤ o.amount
    pub covered : holds t d ≤ℤ sender_after d
    pub sender_nonneg : pos 0 ≤ℤ sender_after d
    pub recipient_nonneg : pos 0 ≤ℤ recipient_after d
    pub new_balance : r.new_balance ≡ sender_after d
    pub replayed : r.replayed ≡ false

  -- When no fault occurs, these let every statement go through.
  pub record IsFeasible (t : Time) (d : Db) : Type 0 where
    pub seed_nonneg : pos 0 ≤ℤ svc.seed_paise
    pub sender_known : known o.sender d ≡ true
    pub recipient_known : known o.recipient d ≡ true
    pub positive : pos 0 <ℤ o.amount
    pub holds_fit : InRange (holds t d)
    pub holds_nonneg : pos 0 ≤ℤ holds t d
    pub room : find_key o.sender o.key d.transfers ≡ none → pos 0 ≤ℤ recipient_after d

  -- Why a transaction is aborted.
  abbrev pub Aborted : Type 0 → Time → Db → Error → Type 0
  Aborted calm t d e =
      ((e ≡ sentinel key_exists)
        × ((old : Transfer) × (find_key o.sender o.key d.transfers ≡ some old)))
      ⊎ ((e ≡ sentinel insufficient_funds)
          × (find_key o.sender o.key d.transfers ≡ none)
          × (sender_after d <ℤ holds t d))
      ⊎ (((x : DbError) × (e ≡ database x)) × ¬ calm)

  module _ (ne : o.sender ≢ o.recipient) (t : Time) (d : Db) where
    pub opened_sender : balance? o.sender (opened t d).wallets ≡ some (balance_or_seed o.sender d)
    unfolding sort_ids
    opened_sender = ground (
      arith,
      balance?-open_wallets svc.seed_paise t (sort_ids svc.uuid_string o.sender o.recipient)
          o.sender d,
    )

    pub opened_recipient :
        balance? o.recipient (opened t d).wallets ≡ some (balance_or_seed o.recipient d)
    unfolding sort_ids
    opened_recipient = ground (
      arith,
      balance?-open_wallets svc.seed_paise t (sort_ids svc.uuid_string o.sender o.recipient)
          o.recipient d,
    )
