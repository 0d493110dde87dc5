-- ===== src/Tests/Accounts.antt =====
-- The theorems on wallets, on sequences of requests and on the order of locks at these states.
use wallet_service.Prelude.{◌+◌, ◌≡◌, refl, none, arith}
use wallet_service.Prog.{World, run}
use wallet_service.Prog.Logic.{Post}
use wallet_service.Sql.Tables.{find_user}
use wallet_service.Wallet.{get_or_create, get_balance}
use wallet_service.Guarantees.{IsStanding}
use wallet_service.Guarantees.Wallet.{Got, NotGot}
use wallet_service.Guarantees.Accounts.{beside, get_or_create-outcome, get_or_create-IsStanding}
use wallet_service.Guarantees.Available.{Shown, NotShown, get_balance-outcome}
use wallet_service.Concurrent.{transfer_block, at_time}
use wallet_service.Concurrent.Interleaved.{
  transferring, passed, started, stepped, interleaved-IsStanding,
}
use wallet_service.Tests.Data.{svc, bob, empty, paid, pay_bob}
use wallet_service.Tests.Examples.{
  seed_ok, empty-IsStanding, empty-IsQuiet, paid-IsStanding, paid-IsQuiet,
}

get_or_create-outcome_example :
    Post
      (λ r w'. Got (beside svc) 1 empty.db 0 Unit r w' × (w'.tx ≡ none))
      (λ e w'. NotGot (beside svc) 1 empty.db 0 Unit e w' × (w'.tx ≡ none))
      (run (get_or_create (beside svc) 1) empty)
unfolding find_user
get_or_create-outcome_example =
    get_or_create-outcome (beside svc) 1 empty Unit refl (λ _. empty-IsQuiet)
      (λ _. (omega arith, refl))

get_or_create-IsStanding_example : IsStanding svc (run (get_or_create (beside svc) 1) empty).1
get_or_create-IsStanding_example = get_or_create-IsStanding svc seed_ok 1 empty empty-IsStanding

get_balance-outcome_example :
    Post (Shown svc 2 paid Unit) (NotShown svc 2 paid Unit) (run (get_balance (beside svc) 2) paid)
get_balance-outcome_example =
    get_balance-outcome svc 2 paid Unit paid-IsStanding (λ _. paid-IsQuiet)

-- Time passes between the BEGIN of Alice's transaction and its locks.
abbrev waited : World
waited = record empty { clock = 50 }

interleaved-IsStanding_example : IsStanding svc (
    at_time
      (50 + (run (transfer_block svc pay_bob 2) (at_time 3 waited)).1.clock)
      (run (transfer_block svc pay_bob 2) (at_time 3 waited)).1)
interleaved-IsStanding_example = interleaved-IsStanding svc seed_ok _ (
    stepped waited _
      (stepped empty waited (started empty refl refl refl)
        (passed empty waited refl refl (omega arith)))
      (transferring pay_bob bob waited 3 _ (omega arith) (ground arith) (omega arith) (omega arith)
        (omega arith)))
