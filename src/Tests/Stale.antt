-- ===== src/Tests/Stale.antt =====
-- A claim that has begun before the end of its window and has its locks after it, when the
-- recipient has already spent the money.
use wallet_service.Prelude.{pos, ◌≤ℤ◌, ◌+ℤ◌, ◌-ℤ◌, wrap64, text_lt, ◌≡◌, refl, some, [], ◌∷◌, arith}
use wallet_service.Models.{Transfer}
use wallet_service.Sql.{run_query, run_update_reversed, run_update_balance}
use wallet_service.Sql.Tables.{
  find_wallet, find_transfer, active_holds, is_active, reverse, set_balance,
}
use wallet_service.Sql.Tables.Balances.{balance?, total}
use wallet_service.Prog.{World, run, do_effect}
use wallet_service.Repository.{lock_wallet, mark_reversed, update_wallet_balance, with_tx}
use wallet_service.Transfer.{sort_ids, balance_at, lock_wallets}
use wallet_service.Transfer.ClaimBack.{claim_tx}
use wallet_service.Ledger.{IsSound}
use wallet_service.Guarantees.{IsStanding}
use wallet_service.Concurrent.{claim_block, at_time}
use wallet_service.Tests.Data.{svc, alice, bob, paid_bob, empty}

-- Alice paid Bob 30 at 5 and 50 at 60. At 106 the first payment is Bob's for good, and he pays back
-- what he may.
abbrev old_payment : Transfer
old_payment = record paid_bob { id = 31; amount_paise = pos 30 }

abbrev new_payment : Transfer
new_payment = record paid_bob { id = 32; amount_paise = pos 50; created_at = 60 }

abbrev spending : Transfer
spending = record paid_bob {
  id = 33;
  sender_id = 2;
  recipient_id = 1;
  amount_paise = pos 1030;
  created_at = 106;
}

abbrev spent : World
spent = record empty {
  db = record {
    users = alice ∷ bob ∷ [];
    wallets =
        (record { user_id = 1; balance_paise = pos 1950; created_at = 5; updated_at = 106 })
        ∷ (record { user_id = 2; balance_paise = pos 50; created_at = 5; updated_at = 106 })
        ∷ [];
    transfers = old_payment ∷ new_payment ∷ spending ∷ [];
  };
  clock = 110;
}

spent-IsSound : IsSound 100 110 spent.db
unfolding balance? find_wallet active_holds is_active ◌+ℤ◌
spent-IsSound = record {
  funded = λ id b e. ground arith;
  balances = λ id b e. ground arith;
  rows = (
    record {
      positive = omega arith;
      distinct = ground arith;
      sender_wallet = cc;
      recipient_wallet = cc;
      reversal_time = λ e. cc;
      reversal_balance = λ e. cc;
    },
    (
      record {
        positive = omega arith;
        distinct = ground arith;
        sender_wallet = cc;
        recipient_wallet = cc;
        reversal_time = λ e. cc;
        reversal_balance = λ e. cc;
      },
      (
        record {
          positive = omega arith;
          distinct = ground arith;
          sender_wallet = cc;
          recipient_wallet = cc;
          reversal_time = λ e. cc;
          reversal_balance = λ e. cc;
        },
        tt,
      ),
    ),
  );
}

spent-IsStanding : IsStanding svc spent
unfolding total ◌+ℤ◌
spent-IsStanding = record { closed = refl; sound = spent-IsSound; conserved = refl }

-- The claim of the old payment began at 100 and gets its locks now.
abbrev claimed_late : World
claimed_late = at_time 120 (run (claim_block svc old_payment) (at_time 100 spent)).1

bob_is_short :
    (balance? 2 claimed_late.db.wallets ≡ some (pos 20))
    × (active_holds 2 100 120 claimed_late.db.transfers ≡ pos 50)
unfolding run do_effect run_query with_tx claim_tx sort_ids text_lt lock_wallets lock_wallet
    find_wallet balance_at mark_reversed run_update_reversed is_active reverse update_wallet_balance
    run_update_balance set_balance wrap64 ◌+ℤ◌ ◌-ℤ◌ balance? active_holds find_transfer
bob_is_short = (refl, refl)

-- Bob's balance no longer covers the payment that may still be claimed.
claimed_late-IsStanding : ¬ IsStanding svc claimed_late
claimed_late-IsStanding h =
    let le = h.sound.funded 2 (pos 20) bob_is_short.0 in short (rw bob_is_short.1 at le)
  where
    short : pos 50 ≤ℤ pos 20 → ⊥
    short le = omega (arith, le)
