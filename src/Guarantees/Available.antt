-- ===== src/Guarantees/Available.antt =====
-- `GetBalance`: the balance, and what of it may be spent.
use wallet_service.Prelude.{
  ℤ, pos, ◌-ℤ◌, ◌≤ℤ◌, ◌≤◌, InRange, int_laws, ◌≡◌, refl, none, some, Option-cases, inl, inr, arith,
}
use wallet_service.Errors.{Error, sentinel, no_wallet, map_repo_not_found}
use wallet_service.Models.{Uuid, Time, Wallet}
use wallet_service.Sql
use wallet_service.Sql.{row, no_rows, balances_of, run_query}
use wallet_service.Sql.Tables.{find_wallet, active_holds}
use wallet_service.Sql.Tables.Balances.{balance?}
use wallet_service.Sql.Tables.Holds.{active_holds_nonneg}
use wallet_service.Prog.{World, run}
use wallet_service.Prog.Logic.{Runs-ret, Runs-fail, Post}
use wallet_service.Repository.{get_wallet_balances}
use wallet_service.Repository.Alone.{Runs-alone, Unsure}
use wallet_service.Transfer.{TransferService}
use wallet_service.Transfer.Execute.{IsStorage}
use wallet_service.Ledger.{IsSound-later, positive}
use wallet_service.Wallet.{get_balance}
use wallet_service.Guarantees.{IsStanding, IsQuiet}
use wallet_service.Guarantees.Accounts.{beside}

module _ (svc : TransferService) (user : Uuid) (w : World) (calm : Type 0) where
  -- The balance, and the balance less the active holds at a time during the call.
  pub record Shown (b : ℤ × ℤ) (w' : World) : Type 0 where
    pub at : Time
    pub since : w.clock ≤ at
    pub until : at ≤ w'.clock
    pub balance : balance? user w.db.wallets ≡ some b.0
    pub available : b.1 ≡ b.0 -ℤ active_holds user svc.claim_window at w.db.transfers
    pub nonneg : pos 0 ≤ℤ b.1
    pub no_more : b.1 ≤ℤ b.0
    pub kept : w'.db ≡ w.db

  pub data NotShown (e : Error) (w' : World) : Type 0 where
    no_account :
        e ≡ sentinel no_wallet → balance? user w.db.wallets ≡ none → w'.db ≡ w.db → NotShown e w'
    storage : IsStorage e → ¬ calm → w'.db ≡ w.db → NotShown e w'

  module _ (h : IsStanding svc w) where
    available_ok :
        (t : Time) (x : Wallet)
        → w.clock ≤ t
        → find_wallet user w.db.wallets ≡ some x
        → (balance? user w.db.wallets ≡ some x.balance_paise)
          × (pos 0 ≤ℤ x.balance_paise -ℤ active_holds user svc.claim_window t w.db.transfers)
          × (x.balance_paise -ℤ active_holds user svc.claim_window t w.db.transfers
              ≤ℤ x.balance_paise)
          × InRange (x.balance_paise -ℤ active_holds user svc.claim_window t w.db.transfers)
    unfolding balance?
    available_ok t x le e =
        let s = IsSound-later h.sound t le in
        let b : balance? user w.db.wallets ≡ some x.balance_paise = rw e refl in
        let f = s.funded user x.balance_paise b in
        let n = active_holds_nonneg user svc.claim_window t w.db.transfers (positive s) in
        let r = s.balances user x.balance_paise b in
        (b, omega (int_laws, f), omega (int_laws, n), omega (int_laws, f, n, r))

    no_row :
        (t : Time)
        → find_wallet user w.db.wallets ≡ none
        → (balance? user w.db.wallets ≡ none) × (balances_of user svc.claim_window t w.db ≡ no_rows)
    unfolding balance?
    no_row t e = (rw e refl, rw (e, balances_of) refl)

    a_row :
        (t : Time) (x : Wallet)
        → find_wallet user w.db.wallets ≡ some x
        → InRange (x.balance_paise -ℤ active_holds user svc.claim_window t w.db.transfers)
        → balances_of user svc.claim_window t w.db
          ≡ row (
            x.balance_paise,
            x.balance_paise -ℤ active_holds user svc.claim_window t w.db.transfers,
          )
    a_row t x e r = ground arith

    -- On a standing ledger, `GetBalance` shows the wallet's balance and that less the money that
    -- is still claimable at a time during the call: never below zero, never more than the balance.
    -- Without a wallet the answer is no_wallet. Another error is the storage's, and `calm`, any
    -- condition under which no statement fails, excludes it. No table changes.
    pub get_balance-outcome :
        (calm → IsQuiet w) → Post Shown NotShown (run (get_balance (beside svc) user) w)
    unfolding get_balance get_wallet_balances run_query map_repo_not_found
    get_balance-outcome quiet =
        (Runs-alone w.db w.clock calm (Sql.select_balances user svc.claim_window) _ w
          (record { kept = refl; closed = h.closed; quiet = quiet; since = omega arith })
          (λ t id w' le kept closed q until. elim (Option-cases (find_wallet user w.db.wallets)) [
            | inl e ↦ rw ((no_row t e).1) (Runs-fail _ (no_account refl ((no_row t e).0) kept))
            | inr (x, e) ↦
                let (b, lo, hi, r) = available_ok t x le e in
                rw (a_row t x e r) (
                  Runs-ret _ (record {
                    at = t;
                    since = le;
                    until = until;
                    balance = b;
                    available = refl;
                    nonneg = lo;
                    no_more = hi;
                    kept = kept;
                  }))
          ])
          (λ t id w' le u n. Runs-fail _ (storage tt n (same u)))).post
      where
        same : {t : Time} {w' : World} → Unsure w.db w.db t w' → w'.db ≡ w.db
        same u = elim u.either [ inl p ↦ p | inr p ↦ p ]
