-- ===== src/Tests/Runs.antt =====
-- Runs of the requests, computed.
use wallet_service.Prelude.{
  ℕ, ◌+◌, arith, pos, text_eq, text_lt, ◌+ℤ◌, ◌-ℤ◌, wrap64, ◌≡◌, refl, false, none, [], ◌∷◌,
}
use wallet_service.Sql.{
  run_query, run_insert_wallet, run_update_balance, run_insert_transfer, run_update_reversed,
}
use wallet_service.Sql.Tables.{
  find_user, find_username, find_key, find_wallet, find_transfer, active_holds, is_active,
  set_balance, reverse,
}
use wallet_service.Prog.{Outcome, run, do_effect}
use wallet_service.Repository.{
  get_user_by_username, get_transfer_by_id, wallet_exists, insert_wallet, lock_wallet,
  insert_transfer, sum_active_holds, mark_reversed, update_wallet_balance, with_tx,
}
use wallet_service.Transfer.{
  TransferResult, sort_ids, balance_at, ensure_wallet, ensure_wallets, lock_wallets, transfer_tx,
  execute,
}
use wallet_service.Transfer.ClaimBack.{ClaimResult, claim_tx, claim_back}
use wallet_service.Guarantees.Execute.{call}
use wallet_service.Guarantees.Claim.{claim}
use wallet_service.Tests.Data.{svc, alice, bob, empty, pay_bob, paid_bob, paid}

-- Alice pays Bob, and both wallets are opened.
abbrev pub first_result : TransferResult
first_result = record { transfer_id = 29; new_balance = pos 900; replayed = false }

pub first :
    ((call svc pay_bob empty).0 ≡ Outcome.ok first_result)
    × ((call svc pay_bob empty).1.db.users ≡ alice ∷ bob ∷ [])
    × ((call svc pay_bob empty).1.db.transfers ≡ record paid_bob { id = 29; created_at = 2 } ∷ [])
unfolding execute run do_effect run_query get_user_by_username find_username text_eq with_tx
    transfer_tx sort_ids text_lt ensure_wallets ensure_wallet wallet_exists find_wallet
    insert_wallet run_insert_wallet find_user lock_wallets lock_wallet sum_active_holds active_holds
    balance_at wrap64 insert_transfer run_insert_transfer find_key find_transfer
    update_wallet_balance run_update_balance set_balance ◌+ℤ◌ ◌-ℤ◌
first = (refl, refl, refl)

-- Alice claims the payment back.
abbrev pub claim_result : ClaimResult
claim_result = record {
  transfer_id = 7;
  new_balance = pos 1000;
  reversed_at = 22;
  replayed = false;
}

pub claimed_back :
    ((claim svc 1 7 paid).0 ≡ Outcome.ok claim_result)
    × ((n : ℕ) → find_transfer (n + 1000) (claim svc 1 7 paid).1.db.transfers ≡ none)
    × ((claim svc 1 7 paid).1.clock ≡ 28)
unfolding claim_back run do_effect run_query get_transfer_by_id find_transfer with_tx claim_tx
    sort_ids text_lt lock_wallets lock_wallet find_wallet balance_at mark_reversed
    run_update_reversed is_active reverse update_wallet_balance run_update_balance set_balance
    wrap64 ◌+ℤ◌ ◌-ℤ◌
claimed_back = (refl, λ n. ground arith, refl)
