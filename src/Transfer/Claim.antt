-- ===== src/Transfer/Claim.antt =====
-- The transaction of `ClaimBack` and every way in which `ClaimBack` ends.
pub mod Body
pub mod Resolve
use wallet_service.Prelude.{
  ℕ, ℤ, pos, ◌+ℤ◌, ◌-ℤ◌, ◌≤ℤ◌, ◌≤◌, wrap64, ◌≡◌, ◌≢◌, ◌⊎◌, Bool, true, false, Option, none, some,
}
use wallet_service.Errors.{
  DbError, Error, sentinel, database, wrapped, not_found, claim_window_expired,
}
use wallet_service.Models.{Uuid, Time, Transfer, completed, reversed, Db}
use wallet_service.Sql.Tables.{find_transfer, is_active}
use wallet_service.Sql.Tables.Balances.{balance?}
use wallet_service.Sql.Effects.{put_balance, mark}
use wallet_service.Prog.{World}
use wallet_service.Transfer.{TransferService}
use wallet_service.Transfer.ClaimBack.{ClaimResult}
use wallet_service.Transfer.Execute.{IsStorage}

-- The balance of a user's wallet, zero if there is none.
abbrev pub balance_or_zero : Uuid → Db → ℤ
balance_or_zero id d = elim (balance? id d.wallets) [ none ↦ pos 0 | some b ↦ b ]

module _ (svc : TransferService) (tr : Transfer) where
  abbrev pub sender_restored : Db → ℤ
  sender_restored d = wrap64 (balance_or_zero tr.sender_id d +ℤ tr.amount_paise)

  abbrev pub recipient_restored : Db → ℤ
  recipient_restored d = wrap64 (balance_or_zero tr.recipient_id d -ℤ tr.amount_paise)

  -- The tables after the reversal.
  unfoldable pub claimed : Time → Db → Db
  claimed t d =
      put_balance tr.sender_id (sender_restored d) t
        (put_balance tr.recipient_id (recipient_restored d) t (mark tr.id t (sender_restored d) d))

  -- Why a claim may go through, and what it returns.
  pub record IsClaim (t : Time) (d : Db) (r : ClaimResult) : Type 0 where
    pub active : is_active svc.claim_window t tr ≡ true
    pub sender_nonneg : pos 0 ≤ℤ sender_restored d
    pub recipient_nonneg : pos 0 ≤ℤ recipient_restored d
    pub result : r ≡ record {
      transfer_id = tr.id;
      new_balance = sender_restored d;
      reversed_at = t;
      replayed = false;
    }

-- The outcome that is stored with a reversed transfer, if it is.
abbrev pub StoredClaim : Transfer → ClaimResult → Type 0
StoredClaim tr r =
    (r.transfer_id ≡ tr.id)
    × (tr.sender_balance_after_reversal ≡ some r.new_balance)
    × (tr.reversed_at ≡ some r.reversed_at)
    × (r.replayed ≡ true)

module _ (svc : TransferService) (caller transfer_id : Uuid) (c : Db) (from : Time) where
  -- The transfer was reversed, or was already and its stored outcome is given again.
  pub data Claimed (r : ClaimResult) (w : World) : Type 0 where
    applied :
        (tr : Transfer) (t : Time)
        → find_transfer transfer_id c.transfers ≡ some tr
        → tr.sender_id ≡ caller
        → tr.status ≡ completed
        → from ≤ t
        → t ≤ w.clock
        → IsClaim svc tr t c r
        → w.db ≡ claimed svc tr t c
        → Claimed r w
    replayed :
        (tr : Transfer)
        → find_transfer transfer_id c.transfers ≡ some tr
        → tr.sender_id ≡ caller
        → tr.status ≡ reversed
        → StoredClaim tr r
        → w.db ≡ c
        → Claimed r w

  -- Why a claim is refused. That of a stranger reads like that of an unknown id.
  pub data Refusal (calm : Type 0) (e : Error) (until : Time) : Type 0 where
    unknown :
        find_transfer transfer_id c.transfers ≡ none → e ≡ sentinel not_found → Refusal calm e until
    not_sender :
        (tr : Transfer)
        → find_transfer transfer_id c.transfers ≡ some tr
        → tr.sender_id ≢ caller
        → e ≡ sentinel not_found
        → Refusal calm e until
    expired :
        (tr : Transfer) (t : Time)
        → find_transfer transfer_id c.transfers ≡ some tr
        → tr.sender_id ≡ caller
        → tr.status ≡ completed
        → from ≤ t
        → t ≤ until
        → is_active svc.claim_window t tr ≡ false
        → e ≡ sentinel claim_window_expired
        → Refusal calm e until
    storage : IsStorage e → ¬ calm → Refusal calm e until

  -- The claim failed: nothing has changed, unless the answer to the commit was lost.
  pub data NotClaimed (calm : Type 0) (e : Error) (w : World) : Type 0 where
    refused : Refusal calm e w.clock → w.db ≡ c → NotClaimed calm e w
    commit_unknown :
        (tr : Transfer) (t : Time) (r : ClaimResult) (x : DbError)
        → e ≡ wrapped "commit tx" (database x)
        → ¬ calm
        → find_transfer transfer_id c.transfers ≡ some tr
        → tr.sender_id ≡ caller
        → tr.status ≡ completed
        → from ≤ t
        → t ≤ w.clock
        → IsClaim svc tr t c r
        → (w.db ≡ c) ⊎ (w.db ≡ claimed svc tr t c)
        → NotClaimed calm e w
