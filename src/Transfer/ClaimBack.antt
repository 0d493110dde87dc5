-- ===== src/Transfer/ClaimBack.antt =====
-- `ClaimBack` of internal/service/transfer.go, with `replayClaim` and `resolveUnappliedClaim`.
use wallet_service.Prelude.{
  ℤ, ◌+ℤ◌, ◌-ℤ◌, wrap64, Bool, true, false, not, Option, none, some, [], ◌==◌, if◌then◌else◌,
}
use wallet_service.Errors.{sentinel, not_found, claim_window_expired, claim_not_applied, errors_is}
use wallet_service.Models.{Uuid, Time, Transfer, TransferStatus, completed, reversed}
use wallet_service.Observe.{Reason, Counter, Event}
use wallet_service.Prog.{Prog, ret, fail, panic, Result, ok, err, attempt, ◌>>=◌, ◌>>◌}
use wallet_service.Repository.{get_transfer_by_id, mark_reversed, update_wallet_balance, with_tx}
use wallet_service.Transfer.{
  TransferService, count, info, sort_ids, balance_at, lock_wallets, load_for, mapped_not_found,
}

pub record ClaimResult : Type 0 where
  pub transfer_id : Uuid
  pub new_balance : ℤ
  pub reversed_at : Time
  pub replayed : Bool

module _ (t : TransferService) where
  -- The dereference of a nil pointer panics.
  abbrev pub stored_outcome : Transfer → Option ℤ → Option Time → Prog ClaimResult
  stored_outcome tr (some after) (some at) =
      ret (record { transfer_id = tr.id; new_balance = after; reversed_at = at; replayed = true })
  stored_outcome tr _ _ = panic

  unfoldable pub replay_claim : Transfer → Prog ClaimResult
  replay_claim tr = do
    count Counter.claim_replays
    info (Event.claim_replay tr.id tr.sender_id)
    stored_outcome tr tr.sender_balance_after_reversal tr.reversed_at

  abbrev pub by_status : {A : Type 0} → TransferStatus → A → A → A
  by_status completed x y = x
  by_status reversed x y = y

  unfoldable pub resolve_unapplied_claim : Uuid → Prog ClaimResult
  resolve_unapplied_claim transfer_id = do
    found ← attempt (get_transfer_by_id transfer_id)
    tr ← load_for t "load transfer after unapplied claim" found
    by_status tr.status
        (do
          count (Counter.claims_rejected Reason.window_expired)
          info (Event.claim_window_expired tr.id tr.sender_id)
          fail (sentinel claim_window_expired))
        (replay_claim tr)

  abbrev pub pay_back : Transfer → ℤ → ℤ → Option Time → Prog ClaimResult
  pay_back tr sender_after recipient_balance none = fail (sentinel claim_not_applied)
  pay_back tr sender_after recipient_balance (some at) = do
    update_wallet_balance tr.recipient_id (wrap64 (recipient_balance -ℤ tr.amount_paise))
    update_wallet_balance tr.sender_id sender_after
    ret (record {
      transfer_id = tr.id;
      new_balance = sender_after;
      reversed_at = at;
      replayed = false;
    })

  -- The function that `ClaimBack` runs in its transaction.
  unfoldable pub claim_tx : Transfer → Prog ClaimResult
  claim_tx tr = do
    let ids = sort_ids t.uuid_string tr.sender_id tr.recipient_id
    balances ← lock_wallets ids []
    let sender_after = wrap64 (balance_at tr.sender_id balances +ℤ tr.amount_paise)
    marked ← mark_reversed tr.id t.claim_window sender_after
    pay_back tr sender_after (balance_at tr.recipient_id balances) marked

  abbrev pub conclude_claim : Transfer → Result ClaimResult → Prog ClaimResult
  conclude_claim tr (ok result) = do
    count Counter.claims_applied
    info (Event.claim_applied tr.id tr.sender_id tr.recipient_id tr.amount_paise)
    ret result
  conclude_claim tr (err e) =
      if errors_is e claim_not_applied then resolve_unapplied_claim tr.id else fail e

  unfoldable pub claim_back : Uuid → Uuid → Prog ClaimResult
  claim_back caller transfer_id = do
    found ← attempt (get_transfer_by_id transfer_id)
    tr ← mapped_not_found t found
    if not (tr.sender_id == caller)
        then (do count (Counter.claims_rejected Reason.not_sender); fail (sentinel not_found))
        else by_status tr.status (do done ← attempt (with_tx (claim_tx tr)); conclude_claim tr done)
            (replay_claim tr)
