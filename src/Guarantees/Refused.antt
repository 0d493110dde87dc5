-- ===== src/Guarantees/Refused.antt =====
-- A claim that is refused.
use wallet_service.Prelude.{◌≤◌, ◌≡◌, ◌≢◌, refl, sym, ap, ◌∙◌, subst, true, false, some, arith}
use mathlib.Core.Option.{some-injective}
use wallet_service.Errors.{Error, sentinel, not_found, claim_window_expired}
use wallet_service.Models.{Uuid, Time, Transfer, completed, reversed}
use wallet_service.Sql.Tables.{find_transfer, is_active}
use wallet_service.Prog.{World, Outcome}
use wallet_service.Prog.Logic.{Runs, Runs-err, Runs-weaken}
use wallet_service.Transfer.{TransferService}
use wallet_service.Transfer.ClaimBack.{ClaimResult, claim_back}
use wallet_service.Transfer.Claim
use wallet_service.Transfer.Claim.{
  sender_restored, recipient_restored, claimed, IsClaim, StoredClaim, Claimed, Refusal, NotClaimed,
}
use wallet_service.Transfer.Claim.Resolve.{claim_back-Runs, is_active_earlier}
use wallet_service.Guarantees.{IsStanding, IsQuiet}
use wallet_service.Guarantees.Claim.{claim}

module _ (svc : TransferService) (caller transfer_id : Uuid) (w : World)
    (standing : IsStanding svc w) (quiet : IsQuiet w) where
  -- A run in which nothing fails, when no claim of the caller's on this id could go through.
  pub closed-Runs :
      ((tr : Transfer)
        → find_transfer transfer_id w.db.transfers ≡ some tr
        → tr.sender_id ≡ caller
        → is_active svc.claim_window w.clock tr ≡ false)
      → Runs
          (claim_back svc caller transfer_id)
          w
          (λ r w'.
            (tr : Transfer) × (find_transfer transfer_id w.db.transfers ≡ some tr)
            × (tr.sender_id ≡ caller)
            × (tr.status ≡ reversed)
            × StoredClaim tr r
            × (w'.db ≡ w.db))
          (λ e w'. Refusal svc caller transfer_id w.db w.clock Unit e w'.clock × (w'.db ≡ w.db))
  closed-Runs inactive =
      Runs-weaken _ w
        (claim_back-Runs svc caller transfer_id w.db w.clock Unit standing.sound.rows
          (λ _ tr f m a. absurd (cc (inactive tr f m, a))) w
          (record {
            kept = refl;
            closed = standing.closed;
            quiet = λ _. quiet;
            since = omega arith;
          }))
        (λ r w' x. result r w' x.0) (λ e w' x. error e w' x.0)
    where
      earlier :
          (tr : Transfer) (t : Time)
          → find_transfer transfer_id w.db.transfers ≡ some tr
          → tr.sender_id ≡ caller
          → w.clock ≤ t
          → is_active svc.claim_window t tr ≡ true
          → ⊥
      earlier tr t f m since a =
          let b = is_active_earlier svc.claim_window w.clock t tr since a in cc (inactive tr f m, b)

      result :
          (r : ClaimResult) (w' : World)
          → Claimed svc caller transfer_id w.db w.clock r w'
          → (tr : Transfer) × (find_transfer transfer_id w.db.transfers ≡ some tr)
            × (tr.sender_id ≡ caller)
            × (tr.status ≡ reversed)
            × StoredClaim tr r
            × (w'.db ≡ w.db)
      result r w' (Claim.applied tr t f m c since until g e) =
          absurd (earlier tr t f m since g.active)
      result r w' (Claim.replayed tr f m rev p e) = (tr, f, m, rev, p, e)

      error :
          (e : Error) (w' : World)
          → NotClaimed svc caller transfer_id w.db w.clock Unit e w'
          → Refusal svc caller transfer_id w.db w.clock Unit e w'.clock × (w'.db ≡ w.db)
      error e w' (Claim.refused x kept) = (x, kept)
      error e w' (Claim.commit_unknown _ _ _ _ _ n _ _ _ _ _ _ _) = absurd (n tt)

  -- On a standing ledger, a claim by anybody but the sender gets the same answer as one on an id
  -- that does not exist, not found, when nothing fails, and changes no table.
  pub claim_back-hides :
      ((tr : Transfer) → find_transfer transfer_id w.db.transfers ≡ some tr → tr.sender_id ≢ caller)
      → ((claim svc caller transfer_id w).0 ≡ Outcome.err (sentinel not_found))
        × ((claim svc caller transfer_id w).1.db ≡ w.db)
  claim_back-hides foreign =
      let (e, p, (x, same)) =
        Runs-err
          (Runs-weaken _ w (closed-Runs (λ tr f m. absurd (foreign tr f m)))
            (λ r w' (tr, f, m, rev, p, same). foreign tr f m) (λ e w' x. x))
          (λ r w' x. x) in
      (p ∙ ap Outcome.err (why e _ x), same)
    where
      why :
          (e : Error) (until : Time)
          → Refusal svc caller transfer_id w.db w.clock Unit e until
          → e ≡ sentinel not_found
      why e until (Claim.unknown f p) = p
      why e until (Claim.not_sender x f n p) = p
      why e until (Claim.expired x t f m c since b a p) = absurd (foreign x f m)
      why e until (Claim.storage p n) = absurd (n tt)

  -- On a standing ledger, a claim by the sender of a completed transfer whose window has passed
  -- when the call starts is refused as expired, when nothing fails, and changes no table.
  pub claim_back-expires :
      (tr : Transfer)
      → find_transfer transfer_id w.db.transfers ≡ some tr
      → tr.sender_id ≡ caller
      → tr.status ≡ completed
      → is_active svc.claim_window w.clock tr ≡ false
      → ((claim svc caller transfer_id w).0 ≡ Outcome.err (sentinel claim_window_expired))
        × ((claim svc caller transfer_id w).1.db ≡ w.db)
  claim_back-expires tr found mine st passed =
      let (e, p, (x, same)) =
        Runs-err
          (Runs-weaken _ w
            (closed-Runs (λ x f m.
              subst (λ x. is_active svc.claim_window w.clock x ≡ false)
                (some-injective tr x (sym found ∙ f)) passed))
            (λ r w' (x, f, m, rev, p, same).
              cc (st, rev, ap (λ t. t.status) (some-injective tr x (sym found ∙ f))))
            (λ e w' x. x))
          (λ r w' x. x) in
      (p ∙ ap Outcome.err (why e _ x), same)
    where
      why :
          (e : Error) (until : Time)
          → Refusal svc caller transfer_id w.db w.clock Unit e until
          → e ≡ sentinel claim_window_expired
      why e until (Claim.unknown f p) = cc
      why e until (Claim.not_sender x f n p) =
          absurd (n (ap (λ t. t.sender_id) (some-injective x tr (sym f ∙ found)) ∙ mine))
      why e until (Claim.expired x t f m c since b a p) = p
      why e until (Claim.storage p n) = absurd (n tt)
