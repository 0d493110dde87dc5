-- ===== src/Concurrent/Blocks.antt =====
-- Each step of a session keeps the ledger, from whatever standing state the others have left.
use wallet_service.Prelude.{
  ℕ, true, false, leb, Bool-cases, arith, InRange, ◌≤◌, ◌≡◌, ◌≢◌, refl, sym, subst, none, some, inl,
  inr,
}
use wallet_service.Errors.{Error}
use wallet_service.Models.{Time, User, Transfer}
use wallet_service.Sql.Tables.{find_transfer, is_active}
use wallet_service.Prog.{World, run}
use wallet_service.Prog.Logic.{Runs, Runs-state, Runs-weaken}
use wallet_service.Repository.WithTx.{
  Done, TxError, aborted, not_begun, commit_failed, with_tx-Runs,
}
use wallet_service.Transfer.{TransferService, TransferResult}
use wallet_service.Transfer.Transaction.{IsTransfer, Aborted, transferred}
use wallet_service.Transfer.Transaction.Body.{transfer_tx-InTx}
use wallet_service.Transfer.Execute.{Call, order}
use wallet_service.Guarantees.{HasSeed, IsStanding}
use wallet_service.Guarantees.Standing.{kept-IsStanding, applied-IsStanding, claimed-IsStanding}
use wallet_service.Transfer.ClaimBack.{ClaimResult, claim_tx}
use wallet_service.Transfer.Claim.{IsClaim, claimed}
use wallet_service.Transfer.Claim.Body.{claim_tx-InTx}
use wallet_service.Transfer.Claim.Resolve.{has_value}
use wallet_service.Ledger.Rows.{IsWellFormed, find_transfer_row}
use wallet_service.Concurrent.{transfer_block, claim_block, SameCore, at_time, InWindow}

module _ (svc : TransferService) (seed_ok : HasSeed svc) (k : Call) (fits : InRange k.amount)
    (u : User) (ne : k.sender ≢ u.id) (w : World) (h : IsStanding svc w) (begin later : Time)
    (after : w.clock ≤ later) where
  abbrev Good : Time → TransferResult → Type 0
  Good t r = IsTransfer svc (order svc k u) t w.db r

  abbrev Bad : Time → Error → Type 0
  Bad t e = Aborted svc (order svc k u) ⊥ t w.db e

  transfer_block-Runs :
      Runs
        (transfer_block svc k u.id)
        (at_time begin w)
        (Done w.db ⊥ Good (λ t r. transferred svc (order svc k u) t r.transfer_id w.db) Bad)
        (λ e w'.
          TxError w.db ⊥ Good (λ t r. transferred svc (order svc k u) t r.transfer_id w.db) Bad e w'
          × (w'.tx ≡ none))
  transfer_block-Runs =
      with_tx-Runs w.db ⊥ Good _ Bad _ (at_time begin w) refl h.closed (λ q. absurd q)
        (λ t w₁ le h₁. transfer_tx-InTx svc (order svc k u) ne w.db t ⊥ (λ q. absurd q) w₁ h₁)

  -- A transfer may have begun before other sessions' steps.
  pub transfer_block-IsStanding :
      (run (transfer_block svc k u.id) (at_time begin w)).1.clock ≤ later
      → IsStanding svc (at_time later (run (transfer_block svc k u.id) (at_time begin w)).1)
  transfer_block-IsStanding =
      Runs-state transfer_block-Runs (λ w'. w'.clock ≤ later → IsStanding svc (at_time later w'))
        (λ r w' d le. finished r w' d le) (λ e w' (x, c) le. stopped e w' x c le)
    where
      finished :
          (r : TransferResult) (w' : World)
          → Done w.db ⊥ Good (λ t r. transferred svc (order svc k u) t r.transfer_id w.db) Bad r w'
          → w'.clock ≤ later
          → IsStanding svc (at_time later w')
      finished r w' d le =
          applied-IsStanding svc seed_ok k fits w h u d.start r (at_time later w') ne after
            (omega (arith, d.ended)) d.good d.closed d.stored

      stopped :
          (e : Error) (w' : World)
          → TxError w.db ⊥ Good
              (λ t r. transferred svc (order svc k u) t r.transfer_id w.db)
              Bad
              e
              w'
          → w'.tx ≡ none
          → w'.clock ≤ later
          → IsStanding svc (at_time later w')
      stopped e w' (aborted t b l kept q) c le =
          kept-IsStanding svc w (at_time later w') h after kept c
      stopped e w' (not_begun x p n kept) c le =
          kept-IsStanding svc w (at_time later w') h after kept c
      stopped e w' (commit_failed x t r p n g l (inl kept)) c le =
          kept-IsStanding svc w (at_time later w') h after kept c
      stopped e w' (commit_failed x t r p n g l (inr all)) c le =
          applied-IsStanding svc seed_ok k fits w h u t r (at_time later w') ne after
            (omega (arith, l)) g c all

-- The transaction of a claim depends on nothing of the transfer that changes.
claim_block-SameCore :
    (svc : TransferService) (tr cur : Transfer)
    → SameCore tr cur
    → claim_block svc tr ≡ claim_block svc cur
unfolding claim_tx
claim_block-SameCore svc tr cur s = rw (s.id, s.sender, s.recipient, s.amount) refl

-- A transfer that is active was active before.
is_active-antitone :
    (window : ℕ) (tr : Transfer) (before now : Time)
    → before ≤ now
    → is_active window now tr ≡ true
    → is_active window before tr ≡ true
unfolding is_active
is_active-antitone window tr before now le h = ground arith

module _ (svc : TransferService) (tr : Transfer) (w : World) (h : IsStanding svc w)
    (found : find_transfer tr.id w.db.transfers ≡ some tr) (begin later : Time)
    (after : w.clock ≤ later) (open_still : InWindow svc tr begin w.clock) where
  abbrev GoodClaim : Time → ClaimResult → Type 0
  GoodClaim t r = (begin ≤ t) × IsClaim svc tr t w.db r

  abbrev AnyError : Time → Error → Type 0
  AnyError t e = Unit

  row : IsWellFormed w.db.wallets tr
  row = (find_transfer_row (IsWellFormed w.db.wallets) tr.id w.db.transfers tr h.sound.rows found).0

  claim_block-Runs :
      Runs
        (claim_block svc tr)
        (at_time begin w)
        (Done w.db ⊥ GoodClaim (λ t r. claimed svc tr t w.db) AnyError)
        (λ e w'.
          TxError w.db ⊥ GoodClaim (λ t r. claimed svc tr t w.db) AnyError e w' × (w'.tx ≡ none))
  claim_block-Runs =
      let (x, sender_has) = has_value row.sender_wallet in
      let (y, recipient_has) = has_value row.recipient_wallet in
      with_tx-Runs w.db ⊥ GoodClaim _ AnyError _ (at_time begin w) refl h.closed (λ q. absurd q)
        (λ t w₁ le h₁.
          Runs-weaken _ w₁
            (claim_tx-InTx svc tr row.distinct w.db x y found sender_has recipient_has t ⊥
              (λ q. absurd q) w₁ h₁)
            (λ r w₂ (g, i). ((le, g), i)) (λ e w₂ (kept, q, b). (kept, q, tt)))

  -- At the start of the transaction or at the locks, whichever is later, the transfer is active.
  reversed-IsStanding :
      (t : Time) (r : ClaimResult) (w' : World)
      → GoodClaim t r
      → t ≤ later
      → w'.tx ≡ none
      → w'.db ≡ claimed svc tr t w.db
      → IsStanding svc (at_time later w')
  reversed-IsStanding t r w' (since, g) le c all = elim (Bool-cases (leb t w.clock)) [
    | inl early ↦
        claimed-IsStanding svc tr.sender_id tr.id w h tr t w.clock r (at_time later w') found
          (omega arith) after
          (open_still (is_active-antitone svc.claim_window tr begin t since g.active)) g c all
    | inr late ↦
        claimed-IsStanding svc tr.sender_id tr.id w h tr t t r (at_time later w') found
          (no_earlier late) le g.active g c all
  ]
    where
      no_earlier : leb t w.clock ≡ false → w.clock ≤ t
      no_earlier p = ground arith

  current-IsStanding :
      (run (claim_block svc tr) (at_time begin w)).1.clock ≤ later
      → IsStanding svc (at_time later (run (claim_block svc tr) (at_time begin w)).1)
  current-IsStanding =
      Runs-state claim_block-Runs (λ w'. w'.clock ≤ later → IsStanding svc (at_time later w'))
        (λ r w' d le.
          reversed-IsStanding d.start r w' d.good (omega (arith, d.ended)) d.closed d.stored)
        (λ e w' (x, c) le. stopped e w' x c le)
    where
      stopped :
          (e : Error) (w' : World)
          → TxError w.db ⊥ GoodClaim (λ t r. claimed svc tr t w.db) AnyError e w'
          → w'.tx ≡ none
          → w'.clock ≤ later
          → IsStanding svc (at_time later w')
      stopped e w' (aborted t b l kept q) c le =
          kept-IsStanding svc w (at_time later w') h after kept c
      stopped e w' (not_begun x p n kept) c le =
          kept-IsStanding svc w (at_time later w') h after kept c
      stopped e w' (commit_failed x t r p n g l (inl kept)) c le =
          kept-IsStanding svc w (at_time later w') h after kept c
      stopped e w' (commit_failed x t r p n g l (inr all)) c le =
          reversed-IsStanding t r w' g (omega (arith, l)) c all

-- The transfer may have been read before others changed what can change of it, and the transaction
-- have begun before other sessions' steps, as long as no window of the transfer ended since.
pub claim_block-IsStanding :
    (svc : TransferService) (tr cur : Transfer) (w : World) (begin later : Time)
    → IsStanding svc w
    → find_transfer cur.id w.db.transfers ≡ some cur
    → SameCore tr cur
    → InWindow svc cur begin w.clock
    → w.clock ≤ later
    → (run (claim_block svc tr) (at_time begin w)).1.clock ≤ later
    → IsStanding svc (at_time later (run (claim_block svc tr) (at_time begin w)).1)
claim_block-IsStanding svc tr cur w begin later h found same open_still after =
    subst
      (λ p.
        (run p (at_time begin w)).1.clock ≤ later
        → IsStanding svc (at_time later (run p (at_time begin w)).1))
      (sym (claim_block-SameCore svc tr cur same))
      (current-IsStanding svc cur w h found begin later after open_still)
