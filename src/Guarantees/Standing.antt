-- ===== src/Guarantees/Standing.antt =====
-- `Execute` and `ClaimBack` keep the ledger: whatever fails, and whenever.
use wallet_service.Prelude.{
  InRange, ◌≤◌, ◌≡◌, refl, sym, subst, true, none, some, inl, inr, arith, ◌≢◌,
}
use wallet_service.Errors.{Error}
use wallet_service.Models.{Uuid, Time, User, Transfer}
use wallet_service.Sql.Tables.{find_transfer, is_active}
use wallet_service.Prog.{World, run}
use wallet_service.Prog.Clock.{clock-run}
use wallet_service.Prog.Logic.{Runs-state}
use wallet_service.Repository.Idle.{Idle}
use wallet_service.Transfer.{TransferService, TransferResult, execute}
use wallet_service.Transfer.ClaimBack.{ClaimResult, claim_back}
use wallet_service.Transfer.Transaction.{IsTransfer, transferred}
use wallet_service.Transfer.Execute.{
  Call, order, Executed, applied, replayed, NotExecuted, refused, commit_unknown,
}
use wallet_service.Transfer.Execute.Resolve.{execute-Runs}
use wallet_service.Transfer.Claim
use wallet_service.Transfer.Claim.{IsClaim, claimed, Claimed, NotClaimed}
use wallet_service.Transfer.Claim.Resolve.{claim_back-Runs, has_value}
use wallet_service.Ledger.{IsSound, IsSound-later}
use wallet_service.Ledger.Rows.{IsWellFormed, find_transfer_row}
use wallet_service.Ledger.Transferred.{transferred-IsSound}
use wallet_service.Ledger.Reversed.{claimed-IsSound}
use wallet_service.Ledger.Conserved.{IsConserved, transferred-IsConserved, claimed-IsConserved}
use wallet_service.Guarantees.{HasSeed, IsStanding}

-- The tables as they were are still in order later.
pub kept-IsStanding :
    (svc : TransferService) (w w' : World)
    → IsStanding svc w
    → w.clock ≤ w'.clock
    → w'.db ≡ w.db
    → w'.tx ≡ none
    → IsStanding svc w'
kept-IsStanding svc w w' h le e c = record {
  closed = c;
  sound = subst (IsSound svc.claim_window w'.clock) (sym e) (IsSound-later h.sound w'.clock le);
  conserved = subst (IsConserved svc.seed_paise) (sym e) h.conserved;
}

pub start-Idle : (w : World) → w.tx ≡ none → Idle w.db w.clock ⊥ w
start-Idle w c = record { kept = refl; closed = c; quiet = λ q. absurd q; since = omega arith }

module _ (svc : TransferService) (seed_ok : HasSeed svc) where
  module _ (k : Call) (fits : InRange k.amount) (w : World) (h : IsStanding svc w) where
    pub applied-IsStanding :
        (u : User) (t : Time) (r : TransferResult) (w' : World)
        → k.sender ≢ u.id
        → w.clock ≤ w'.clock
        → t ≤ w'.clock
        → IsTransfer svc (order svc k u) t w.db r
        → w'.tx ≡ none
        → w'.db ≡ transferred svc (order svc k u) t r.transfer_id w.db
        → IsStanding svc w'
    applied-IsStanding u t r w' ne le until g c e =
        let s = IsSound-later h.sound w'.clock le in
        record {
          closed = c;
          sound = subst (IsSound svc.claim_window w'.clock) (sym e) (
              transferred-IsSound svc (order svc k u) ne t w.db r.transfer_id r seed_ok fits g
                w'.clock until s);
          conserved = subst (IsConserved svc.seed_paise) (sym e) (
              transferred-IsConserved svc (order svc k u) ne t w.db r seed_ok fits g w'.clock until
                s r.transfer_id h.conserved);
        }

    -- On a standing ledger, whatever the driver does at each statement, and whenever, a call of
    -- `Execute` with an amount of 64 bits leaves the ledger standing: no transaction open, every
    -- balance an int64 that is not negative and covers its active holds, every row well formed,
    -- and the balances adding up to the seed of each wallet. The seed is an int64 that is not
    -- negative.
    pub execute-IsStanding :
        IsStanding svc (run (execute svc k.sender k.to_username k.amount k.key) w).1
    execute-IsStanding =
        Runs-state (execute-Runs svc k w.db w.clock ⊥ (λ q. absurd q) w (start-Idle w h.closed))
          (λ w'. w.clock ≤ w'.clock → IsStanding svc w') (λ r w' (x, c) le. ended r w' x c le)
          (λ e w' (x, c) le. stopped e w' x c le)
          (clock-run (execute svc k.sender k.to_username k.amount k.key) w)
      where
        ended :
            (r : TransferResult) (w' : World)
            → Executed svc k w.db w.clock r w'
            → w'.tx ≡ none
            → w.clock ≤ w'.clock
            → IsStanding svc w'
        ended r w' (applied u t found ne from until g e) c le =
            applied-IsStanding u t r w' ne le until g c e
        ended r w' (replayed old found same p e) c le = kept-IsStanding svc w w' h le e c

        stopped :
            (e : Error) (w' : World)
            → NotExecuted svc k w.db w.clock ⊥ e w'
            → w'.tx ≡ none
            → w.clock ≤ w'.clock
            → IsStanding svc w'
        stopped x w' (refused p e) c le = kept-IsStanding svc w w' h le e c
        stopped x w' (commit_unknown u t r y p n found ne from until g (inl e)) c le =
            kept-IsStanding svc w w' h le e c
        stopped x w' (commit_unknown u t r y p n found ne from until g (inr e)) c le =
            applied-IsStanding u t r w' ne le until g c e

module _ (svc : TransferService) (caller transfer_id : Uuid) (w : World)
    (h : IsStanding svc w) where
  pub claimed-IsStanding :
      (tr : Transfer) (t now : Time) (r : ClaimResult) (w' : World)
      → find_transfer transfer_id w.db.transfers ≡ some tr
      → w.clock ≤ now
      → now ≤ w'.clock
      → is_active svc.claim_window now tr ≡ true
      → IsClaim svc tr t w.db r
      → w'.tx ≡ none
      → w'.db ≡ claimed svc tr t w.db
      → IsStanding svc w'
  claimed-IsStanding tr t now r w' found from until active g c e =
      let s = IsSound-later h.sound now from in
      let (row, p) =
        find_transfer_row (IsWellFormed w.db.wallets) transfer_id w.db.transfers tr s.rows found in
      let found' = subst (λ i. find_transfer i w.db.transfers ≡ some tr) (sym p) found in
      let (x, sender_has) = has_value row.sender_wallet in
      let (y, recipient_has) = has_value row.recipient_wallet in
      record {
        closed = c;
        sound = subst (IsSound svc.claim_window w'.clock) (sym e) (
            IsSound-later
              (claimed-IsSound svc tr t now w.db x y s found' sender_has recipient_has r g active)
              w'.clock until);
        conserved = subst (IsConserved svc.seed_paise) (sym e) (
            claimed-IsConserved svc tr t now w.db x y s found' sender_has recipient_has r g active
              h.conserved);
      }

  -- On a standing ledger, whatever the driver does at each statement, and whenever, a call of
  -- `ClaimBack` leaves the ledger standing, in the same sense.
  pub claim_back-IsStanding : IsStanding svc (run (claim_back svc caller transfer_id) w).1
  claim_back-IsStanding =
      Runs-state
        (claim_back-Runs svc caller transfer_id w.db w.clock ⊥ h.sound.rows (λ q. absurd q) w
          (start-Idle w h.closed))
        (λ w'. w.clock ≤ w'.clock → IsStanding svc w') (λ r w' (x, c) le. ended r w' x c le)
        (λ e w' (x, c) le. stopped e w' x c le) (clock-run (claim_back svc caller transfer_id) w)
    where
      ended :
          (r : ClaimResult) (w' : World)
          → Claimed svc caller transfer_id w.db w.clock r w'
          → w'.tx ≡ none
          → w.clock ≤ w'.clock
          → IsStanding svc w'
      ended r w' (Claim.applied tr t found mine st from until g e) c le =
          claimed-IsStanding tr t t r w' found from until g.active g c e
      ended r w' (Claim.replayed tr found mine st p e) c le = kept-IsStanding svc w w' h le e c

      stopped :
          (e : Error) (w' : World)
          → NotClaimed svc caller transfer_id w.db w.clock ⊥ e w'
          → w'.tx ≡ none
          → w.clock ≤ w'.clock
          → IsStanding svc w'
      stopped x w' (Claim.refused p e) c le = kept-IsStanding svc w w' h le e c
      stopped x w' (Claim.commit_unknown tr t r y p n found mine st from until g (inl e)) c le =
          kept-IsStanding svc w w' h le e c
      stopped x w' (Claim.commit_unknown tr t r y p n found mine st from until g (inr e)) c le =
          claimed-IsStanding tr t t r w' found from until g.active g c e
