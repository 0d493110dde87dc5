-- ===== src/Transfer/LockOrder.antt =====
-- The order in which a transfer and a claim-back lock the two wallets.
pub mod Taken
use wallet_service.Prelude.{
  ltb_ℤ, Text, text_lt, ◌==◌, Bool, true, Option, none, some, List, [], ◌∷◌, ◌≡◌, ◌⊎◌, arith,
  if◌then◌else◌,
}
use wallet_service.Errors.{Error}
use wallet_service.Models.{Uuid, Time, Transfer, Draft}
use wallet_service.Sql
use wallet_service.Sql.{Answer, row, no_rows, rejected}
use wallet_service.Prog.{Prog, ret, fail, perform, Effect, query, Reply, ◌>>=◌, ◌>>◌}
use wallet_service.Repository.{
  scan, scan_found, scan_optional, insert_wallet, wallet_exists, lock_wallet, insert_transfer,
  sum_active_holds, mark_reversed, update_wallet_balance,
}
use wallet_service.Transfer.{
  Balances, note_lost_race, create_absent, ensure_wallet, ensure_wallets, lock_wallets, settle,
  draft, balance_at,
}
use wallet_service.Transfer.ClaimBack.{pay_back}
use wallet_service.Transfer.LockOrder.Taken.{Locks}

-- The wallets of `a` and `b` are locked one after the other, the one whose id has the smaller text
-- first, and both before a balance is written and before the program returns.
pub record LocksUpwards (uuid_string : Uuid → Text) (a b : Uuid) {A : Type 0} (p : Prog A)
    : Type 0 where
  pub low : Uuid
  pub high : Uuid
  pub both : ((low ≡ a) × (high ≡ b)) ⊎ ((low ≡ b) × (high ≡ a))
  pub upwards : text_lt (uuid_string low) (uuid_string high) ≡ true
  pub locks : Locks (low ∷ high ∷ []) [] p
