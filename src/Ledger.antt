-- ===== src/Ledger.antt =====
-- What holds of the tables between transactions: every wallet covers its active holds, which is
-- what internal/service/transfer.go calls the invariant behind claim-backs, and the rows are
-- consistent with one another.
pub mod Rows
pub mod Transferred
pub mod Reversed
pub mod Conserved
pub mod Opened
use wallet_service.Prelude.{
  ℕ, ◌≤◌, ℤ, pos, ◌+ℤ◌, ◌≤ℤ◌, ◌<ℤ◌, InRange, int_laws, ◌≡◌, ◌≢◌, refl, Option, none, some, List, [],
  ◌∷◌, ◌++◌, All, arith, ◌==◌, inl, inr, Bool-cases, eq_of_test,
}
use wallet_service.Models.{Uuid, Time, Wallet, Transfer, reversed, Db}
use wallet_service.Sql.Tables.{active_holds}
use wallet_service.Sql.Tables.Balances.{balance?, total}
use wallet_service.Ledger.Rows.{IsWellFormed, amounts_positive}
use wallet_service.Sql.Tables.Holds.{active_holds-antitone}

pub record IsSound (window : ℕ) (now : Time) (d : Db) : Type 0 where
  pub funded :
      (id : Uuid) (b : ℤ)
      → balance? id d.wallets ≡ some b
      → active_holds id window now d.transfers ≤ℤ b
  pub balances : (id : Uuid) (b : ℤ) → balance? id d.wallets ≡ some b → (pos 0 ≤ℤ b) × InRange b
  pub rows : All (IsWellFormed d.wallets) d.transfers

module _ {window : ℕ} {now : Time} {d : Db} (s : IsSound window now d) where
  pub positive : All (λ t. pos 0 <ℤ t.amount_paise) d.transfers
  positive = amounts_positive d.wallets d.transfers s.rows

  -- Holds expire, so sound tables stay sound as time passes.
  pub IsSound-later : (later : Time) → now ≤ later → IsSound window later d
  IsSound-later later le = record {
    funded = λ id b e.
        omega (
          arith,
          active_holds-antitone id window now later d.transfers le positive,
          s.funded id b e,
        );
    balances = s.balances;
    rows = s.rows;
  }
