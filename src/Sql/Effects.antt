-- ===== src/Sql/Effects.antt =====
-- What the statements of a transfer and of a claim-back do to the tables when all of them succeed.
pub mod Opened
use wallet_service.Prelude.{ℤ, Option, none, some, List, [], ◌∷◌, ◌++◌}
use wallet_service.Models.{Uuid, Time, Transfer, Draft, Db}
use wallet_service.Sql.{new_wallet, recorded}
use wallet_service.Sql.Tables.{find_wallet, set_balance, reverse}

unfoldable pub open_wallet : ℤ → Time → Uuid → Db → Db
open_wallet seed now id d = elim (find_wallet id d.wallets) [
  | none ↦ record d { wallets = d.wallets ++ new_wallet id seed now ∷ [] }
  | some _ ↦ d
]

unfoldable pub open_wallets : ℤ → Time → List Uuid → Db → Db
open_wallets seed now [] d = d
open_wallets seed now (id ∷ ids) d = open_wallets seed now ids (open_wallet seed now id d)

unfoldable pub add_transfer : Draft → Time → Uuid → Db → Db
add_transfer tr now id d = record d { transfers = d.transfers ++ recorded tr now id ∷ [] }

unfoldable pub put_balance : Uuid → ℤ → Time → Db → Db
put_balance id b now d = record d { wallets = set_balance id b now d.wallets }

unfoldable pub mark : Uuid → Time → ℤ → Db → Db
mark id now after d = record d { transfers = reverse id now after d.transfers }
