-- ===== src/Guarantees.antt =====
-- What internal/service/transfer.go and wallet.go promise to their callers, from the request to the
-- tables.
pub mod Standing
pub mod Execute
pub mod Funds
pub mod Retry
pub mod Claim
pub mod Refused
pub mod Reclaim
pub mod Lookup
pub mod Status
pub mod Wallet
pub mod Accounts
pub mod Available
pub mod Reached
use wallet_service.Prelude.{
  ℕ, ℤ, pos, ◌≤ℤ◌, ◌<ℤ◌, ◌<◌, ◌≤◌, InRange, Text, length, ◌≡◌, ◌≢◌, true, none, some,
}
use wallet_service.Models.{User, Db}
use wallet_service.Sql.{known}
use wallet_service.Sql.Tables.{find_username}
use wallet_service.Prog.{World}
use wallet_service.Repository.InTx.{Quiet}
use wallet_service.Transfer.{TransferService}
use wallet_service.Transfer.Execute.{Call}
use wallet_service.Ledger.{IsSound}
use wallet_service.Ledger.Conserved.{IsConserved}

-- A seed that the balance column takes.
abbrev pub HasSeed : TransferService → Type 0
HasSeed svc = (pos 0 ≤ℤ svc.seed_paise) × InRange svc.seed_paise

-- Between two requests: no transaction is open, every wallet covers its active holds, every row is
-- well formed, and the balances add up to the seeds.
pub record IsStanding (svc : TransferService) (w : World) : Type 0 where
  pub closed : w.tx ≡ none
  pub sound : IsSound svc.claim_window w.clock w.db
  pub conserved : IsConserved svc.seed_paise w.db

-- No statement fails from here on, and new ids are new.
abbrev pub IsQuiet : World → Type 0
IsQuiet w = Quiet w.db.transfers w.nature

-- A call that passes every check before the transaction.
pub record IsProper (k : Call) (u : User) (d : Db) : Type 0 where
  pub sender_known : known k.sender d ≡ true
  pub found : find_username k.to_username d.users ≡ some u
  pub distinct : k.sender ≢ u.id
  pub positive : pos 0 <ℤ k.amount
  pub fits : InRange k.amount
  pub key_given : 0 < length k.key
  pub key_short : length k.key ≤ 128
