-- ===== src/Guarantees/Reached.antt =====
-- Every state that requests lead to, one after the other, from empty tables.
use wallet_service.Prelude.{
  ◌≤◌, ◌≤ℤ◌, InRange, ◌≡◌, refl, sym, ap, ◌∙◌, length, subst, none, [], All,
}
use wallet_service.Models.{Uuid}
use wallet_service.Sql.Tables.{find_wallet, active_holds}
use wallet_service.Sql.Tables.Balances.{balance?, total}
use wallet_service.Prog.{World, run}
use wallet_service.Transfer.{TransferService}
use wallet_service.Transfer.Execute.{Call}
use wallet_service.Wallet.{get_or_create}
use wallet_service.Ledger.{IsSound-later}
use wallet_service.Ledger.Conserved.{times}
use wallet_service.Ledger.Rows.{IsWellFormed}
use wallet_service.Guarantees.{HasSeed, IsStanding}
use wallet_service.Guarantees.Standing.{execute-IsStanding, claim_back-IsStanding}
use wallet_service.Guarantees.Execute.{call}
use wallet_service.Guarantees.Claim.{claim}
use wallet_service.Guarantees.Accounts.{beside, get_or_create-IsStanding}

-- The requests that write wallets or transfers; an amount is an int64.
pub data Request : Type 0 where
  transfer : (k : Call) → InRange k.amount → Request
  claim_back : Uuid → Uuid → Request
  open_account : Uuid → Request

unfoldable pub after_request : TransferService → Request → World → World
after_request svc (transfer k fits) w = (call svc k w).1
after_request svc (claim_back caller transfer_id) w = (claim svc caller transfer_id w).1
after_request svc (open_account user) w = (run (get_or_create (beside svc) user) w).1

-- Between requests time passes, users sign up, and the driver may behave in any other way.
pub data Reached (svc : TransferService) : World → Type 0 where
  started : (w : World) → w.tx ≡ none → w.db.wallets ≡ [] → w.db.transfers ≡ [] → Reached svc w
  requested : (r : Request) (w : World) → Reached svc w → Reached svc (after_request svc r w)
  waited :
      (w w' : World)
      → Reached svc w
      → w'.tx ≡ none
      → w'.db.wallets ≡ w.db.wallets
      → w'.db.transfers ≡ w.db.transfers
      → w.clock ≤ w'.clock
      → Reached svc w'

pub started-IsStanding :
    (svc : TransferService) (w : World)
    → w.tx ≡ none
    → w.db.wallets ≡ []
    → w.db.transfers ≡ []
    → IsStanding svc w
unfolding balance? find_wallet total
started-IsStanding svc w c p q = record {
  closed = c;
  sound = record {
    funded = λ id b e. absurd (cc e);
    balances = λ id b e. absurd (cc e);
    rows = subst (λ ts. All (IsWellFormed w.db.wallets) ts) (sym q) tt;
  };
  conserved = subst (λ ws. total ws ≡ times (length ws) svc.seed_paise) (sym p) refl;
}

pub waited-IsStanding :
    (svc : TransferService) (w w' : World)
    → IsStanding svc w
    → w'.tx ≡ none
    → w'.db.wallets ≡ w.db.wallets
    → w'.db.transfers ≡ w.db.transfers
    → w.clock ≤ w'.clock
    → IsStanding svc w'
waited-IsStanding svc w w' h c p q le =
    let s = IsSound-later h.sound w'.clock le in
    record {
      closed = c;
      sound = record {
        funded = λ id b e.
            subst (λ ts. active_holds id svc.claim_window w'.clock ts ≤ℤ b) (sym q)
              (s.funded id b (ap (balance? id) (sym p) ∙ e));
        balances = λ id b e. s.balances id b (ap (balance? id) (sym p) ∙ e);
        rows =
            subst (λ ts. All (IsWellFormed w'.db.wallets) ts) (sym q)
              (subst (λ ws. All (IsWellFormed ws) w.db.transfers) (sym p) s.rows);
      };
      conserved = subst (λ ws. total ws ≡ times (length ws) svc.seed_paise) (sym p) h.conserved;
    }

-- Every state that any sequence of transfers, claims and openings of wallets reaches from empty
-- tables, under every timing and every failure, with signups and waiting between them, is
-- standing: the balances are not negative, cover the active holds and add up to the seeds. The
-- seed is an int64 that is not negative.
pub reached-IsStanding :
    (svc : TransferService) → HasSeed svc → (w : World) → Reached svc w → IsStanding svc w
unfolding after_request
reached-IsStanding svc seed_ok _ (started w c p q) = started-IsStanding svc w c p q
reached-IsStanding svc seed_ok _ (requested (transfer k fits) v h) =
    execute-IsStanding svc seed_ok k fits v (reached-IsStanding svc seed_ok v h)
reached-IsStanding svc seed_ok _ (requested (claim_back caller transfer_id) v h) =
    claim_back-IsStanding svc caller transfer_id v (reached-IsStanding svc seed_ok v h)
reached-IsStanding svc seed_ok _ (requested (open_account user) v h) =
    get_or_create-IsStanding svc seed_ok user v (reached-IsStanding svc seed_ok v h)
reached-IsStanding svc seed_ok _ (waited v w h c p q le) =
    waited-IsStanding svc v w (reached-IsStanding svc seed_ok v h) c p q le
