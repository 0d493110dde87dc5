-- ===== src/Concurrent.antt =====
-- Sessions side by side: what one request does between two points at which others may run.
-- Outside a transaction each statement is one step. The function passed to WithTx, with its commit, is
-- one step too, but its BEGIN may come before: now() is fixed there, at a time before the steps
-- of other sessions that come first. The step stands for the time at which the transaction has the
-- locks of both wallets, after which PostgreSQL holds back whoever would change the same rows.
pub mod Blocks
pub mod Interleaved
use wallet_service.Prelude.{true, ℤ, InRange, ◌≤◌, Text, ◌≡◌, ◌≢◌, none, some, [], List}
use wallet_service.Models.{Uuid, Time, User, Transfer}
use wallet_service.Sql
use wallet_service.Sql.{Query, run_query}
use wallet_service.Sql.Tables.{find_transfer, is_active}
use wallet_service.Prog.{Prog, Effect, act, World, run}
use wallet_service.Repository.{with_tx}
use wallet_service.Transfer.{TransferService, TransferResult, transfer_tx}
use wallet_service.Transfer.ClaimBack.{ClaimResult, claim_tx}
use wallet_service.Transfer.Execute.{Call, call_hash}

-- What never changes in a stored transfer: a request that has read it may act on it later.
pub record SameCore (tr cur : Transfer) : Type 0 where
  pub id : tr.id ≡ cur.id
  pub sender : tr.sender_id ≡ cur.sender_id
  pub recipient : tr.recipient_id ≡ cur.recipient_id
  pub amount : tr.amount_paise ≡ cur.amount_paise

-- The transaction of `Execute` for a recipient that was looked up before, and of `ClaimBack` for a
-- transfer that was read before.
abbrev pub transfer_block : TransferService → Call → Uuid → Prog TransferResult
transfer_block svc k recipient =
    with_tx (transfer_tx svc k.sender recipient k.amount k.key (call_hash svc k))

abbrev pub claim_block : TransferService → Transfer → Prog ClaimResult
claim_block svc tr = with_tx (claim_tx svc tr)

-- The world with its clock at a time. A transaction is run from the world with the time of its BEGIN.
abbrev pub at_time : Time → World → World
at_time t w = record w { clock = t }

-- The window of a transfer does not end between the BEGIN of its claim and the time of the locks.
abbrev pub InWindow : TransferService → Transfer → Time → Time → Type 0
InWindow svc tr begin now =
    is_active svc.claim_window begin tr ≡ true → is_active svc.claim_window now tr ≡ true

-- A statement that leaves the tables as they are.
abbrev pub Reads : Query → Type 0
Reads q = (now : Time) (id : Uuid) (w : World) → (run_query q now id w.db).1 ≡ w.db
