-- ===== src/Guarantees/Reclaim.antt =====
-- A claim that is sent again.
use wallet_service.Prelude.{
  ℕ, ℤ, ◌≡◌, refl, sym, ap, ◌∙◌, subst, true, false, Bool-cases, All, some, List, [], ◌∷◌, inl, inr,
  arith, ◌==◌,
}
use mathlib.Core.Option.{some-injective}
use wallet_service.Errors.{Error}
use wallet_service.Models.{Uuid, Time, Transfer, reversed, Db}
use wallet_service.Sql.Tables.{find_transfer, is_active, reverse}
use wallet_service.Sql.Effects.{put_balance, mark}
use wallet_service.Prog.{World, Outcome}
use wallet_service.Prog.Logic.{Runs-ok, Runs-weaken, Runs-returned}
use wallet_service.Transfer.{TransferService}
use wallet_service.Transfer.ClaimBack.{ClaimResult}
use wallet_service.Transfer.Claim
use wallet_service.Transfer.Claim.{
  sender_restored, recipient_restored, claimed, IsClaim, StoredClaim, Claimed, Refusal, NotClaimed,
}
use wallet_service.Transfer.Claim.Resolve.{claim_back-Runs}
use wallet_service.Ledger.Rows.{IsWellFormed, find_transfer_row}
use wallet_service.Guarantees.{IsStanding, IsQuiet}
use wallet_service.Guarantees.Standing.{start-Idle}
use wallet_service.Guarantees.Claim.{claim}
use wallet_service.Guarantees.Refused.{closed-Runs}

-- The row of a transfer once it is reversed.
abbrev as_reversed : Time → ℤ → Transfer → Transfer
as_reversed at after tr = record tr {
  status = reversed;
  reversed_at = some at;
  sender_balance_after_reversal = some after;
}

-- One row has one stored outcome.
StoredClaim-unique :
    (tr : Transfer) (a b : ClaimResult) → StoredClaim tr a → StoredClaim tr b → a ≡ b
StoredClaim-unique tr a b (p, q, s, u) (p', q', s', u') = λ i. record {
  transfer_id = (p ∙ sym p') i;
  new_balance = some-injective a.new_balance b.new_balance (sym q ∙ q') i;
  reversed_at = some-injective a.reversed_at b.reversed_at (sym s ∙ s') i;
  replayed = (u ∙ sym u') i;
}

reversed-inactive :
    (window : ℕ) (t : Time) (tr : Transfer) → tr.status ≡ reversed → is_active window t tr ≡ false
unfolding is_active
reversed-inactive window t tr e = rw e refl

module _ (svc : TransferService) (caller transfer_id : Uuid) (w : World)
    (standing : IsStanding svc w) (quiet : IsQuiet w) where
  -- A claim by the sender of a transfer that is reversed gets the stored outcome, when nothing
  -- fails, and changes no table.
  pub claim_back-replays :
      (tr : Transfer)
      → find_transfer transfer_id w.db.transfers ≡ some tr
      → tr.sender_id ≡ caller
      → tr.status ≡ reversed
      → (r : ClaimResult) → StoredClaim tr r
      → ((claim svc caller transfer_id w).0 ≡ Outcome.ok r)
        × ((claim svc caller transfer_id w).1.db ≡ w.db)
  claim_back-replays tr found mine rev r p =
      let (r', e, (x, f, m, v, q, same)) =
        Runs-ok
          (Runs-weaken _ w
            (closed-Runs svc caller transfer_id w standing quiet (λ x f m.
              reversed-inactive svc.claim_window w.clock x
                (ap (λ t. t.status) (some-injective x tr (sym f ∙ found)) ∙ rev)))
            (λ r w' x. x) (λ e w' x. impossible e _ x.0))
          (λ e w' x. x) in
      (
        e
            ∙ ap Outcome.ok (
                StoredClaim-unique tr r' r
                  (subst (λ y. StoredClaim y r') (some-injective x tr (sym f ∙ found)) q) p),
        same,
      )
    where
      impossible :
          (e : Error) (until : Time) → Refusal svc caller transfer_id w.db w.clock Unit e until → ⊥
      impossible e until (Claim.unknown f p) = cc
      impossible e until (Claim.not_sender x f n p) =
          n (ap (λ t. t.sender_id) (some-injective x tr (sym f ∙ found)) ∙ mine)
      impossible e until (Claim.expired x t f m c since b a p) =
          cc (c, rev, ap (λ t. t.status) (some-injective x tr (sym f ∙ found)))
      impossible e until (Claim.storage p n) = n tt

find_transfer-reverse :
    (id : Uuid) (at : Time) (after : ℤ) (ts : List Transfer) (tr : Transfer)
    → find_transfer id ts ≡ some tr
    → find_transfer id (reverse id at after ts) ≡ some (as_reversed at after tr)
unfolding find_transfer reverse
find_transfer-reverse id at after [] tr h = cc
find_transfer-reverse id at after (x ∷ ts) tr h = elim (Bool-cases (x.id == id)) [
  | inl here ↦
      subst (λ y. find_transfer id (reverse id at after (x ∷ ts)) ≡ some (as_reversed at after y))
        (some-injective x tr (rw here at h)) (rw here (ground arith))
  | inr on ↦ rw on (ground (arith, find_transfer-reverse id at after ts tr (rw on at h)))
]

reversed_row :
    (svc : TransferService) (tr : Transfer) (t : Time) (c : Db)
    → find_transfer tr.id c.transfers ≡ some tr
    → find_transfer tr.id (claimed svc tr t c).transfers
      ≡ some (as_reversed t (sender_restored svc tr c) tr)
unfolding claimed put_balance mark
reversed_row svc tr t c f =
    find_transfer-reverse tr.id t (sender_restored svc tr c) c.transfers tr f

-- The row of a transfer, once a claim on it has returned.
claim_row :
    (svc : TransferService) (caller transfer_id : Uuid) (c : Db) (from : Time) (r : ClaimResult)
    (w : World)
    → All (IsWellFormed c.wallets) c.transfers
    → Claimed svc caller transfer_id c from r w
    → (tr : Transfer) × (find_transfer transfer_id w.db.transfers ≡ some tr)
      × (tr.sender_id ≡ caller)
      × (tr.status ≡ reversed)
      × StoredClaim tr (record r { replayed = true })
claim_row svc caller transfer_id c from r w rows (Claim.replayed tr f m rev p e) =
    (tr, ap (λ d. find_transfer transfer_id d.transfers) e ∙ f, m, rev, (p.0, p.1, p.2, refl))
claim_row svc caller transfer_id c from r w rows (Claim.applied tr t f m st since until g e) =
    let id : tr.id ≡ transfer_id =
      (find_transfer_row (IsWellFormed c.wallets) transfer_id c.transfers tr rows f).1 in
    (
      as_reversed t (sender_restored svc tr c) tr,
      ap (λ d. find_transfer transfer_id d.transfers) e
          ∙ subst
              (λ i.
                find_transfer i (claimed svc tr t c).transfers
                ≡ some (as_reversed t (sender_restored svc tr c) tr))
              id
              (reversed_row svc tr t c
                (subst (λ i. find_transfer i c.transfers ≡ some tr) (sym id) f)),
      m,
      refl,
      (
        ap (λ x. x.transfer_id) g.result,
        ap (λ x. some x.new_balance) (sym g.result),
        ap (λ x. some x.reversed_at) (sym g.result),
        refl,
      ),
    )

-- A claim that succeeded on a standing ledger, under any timing and failures, is sent again when
-- the ledger is standing: as long as the row is as the first claim left it, a second claim during
-- which nothing fails gives the same outcome, marked as a replay, and changes nothing. So a
-- transfer is paid back at most once.
pub claim_back-again :
    (svc : TransferService) (caller transfer_id : Uuid) (w later : World) (r : ClaimResult)
    → IsStanding svc w
    → (claim svc caller transfer_id w).0 ≡ Outcome.ok r
    → IsStanding svc later
    → IsQuiet later
    → find_transfer transfer_id later.db.transfers
      ≡ find_transfer transfer_id (claim svc caller transfer_id w).1.db.transfers
    → ((claim svc caller transfer_id later).0 ≡ Outcome.ok (record r { replayed = true }))
      × ((claim svc caller transfer_id later).1.db ≡ later.db)
claim_back-again svc caller transfer_id w later r h done standing quiet same =
    let (x, _) =
      Runs-returned
        (claim_back-Runs svc caller transfer_id w.db w.clock ⊥ h.sound.rows (λ q. absurd q) w
          (start-Idle w h.closed))
        r done in
    let (tr, found, mine, rev, p) =
      claim_row svc caller transfer_id w.db w.clock r _ h.sound.rows x in
    claim_back-replays svc caller transfer_id later standing quiet tr (same ∙ found) mine rev _ p
