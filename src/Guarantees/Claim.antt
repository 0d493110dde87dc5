-- ===== src/Guarantees/Claim.antt =====
-- What a caller of `ClaimBack` can count on.
use wallet_service.Prelude.{
  pos, ◌+ℤ◌, ◌-ℤ◌, ◌≤ℤ◌, ◌<ℤ◌, ◌≤◌, ◌^◌, int_laws, ◌≡◌, refl, sym, ap, ◌∙◌, subst, true, false,
  none, some, arith, ◌==◌, wrap64_of_InRange, if◌then◌else◌,
}
use mathlib.Core.Option.{some-injective}
use wallet_service.Errors.{Error}
use wallet_service.Models.{Uuid, Time, Transfer, completed}
use wallet_service.Sql.Tables.{find_transfer, is_active}
use wallet_service.Sql.Tables.Balances.{balance?}
use wallet_service.Prog.{World, Outcome, run}
use wallet_service.Prog.Logic.{Runs-ok, Runs-weaken, Runs-final, Post}
use wallet_service.Transfer.{TransferService}
use wallet_service.Transfer.ClaimBack.{ClaimResult, claim_back}
use wallet_service.Transfer.Claim
use wallet_service.Transfer.Claim.{
  balance_or_zero, sender_restored, recipient_restored, claimed, IsClaim, Claimed, Refusal,
  NotClaimed,
}
use wallet_service.Transfer.Claim.Resolve.{claim_back-Runs, has_value, is_active_earlier}
use wallet_service.Ledger.{IsSound-later}
use wallet_service.Ledger.Rows.{IsWellFormed, find_transfer_row}
use wallet_service.Ledger.Reversed.{
  recipient_restored_nonneg, recipient_restored_exact, sender_restored_exact, balance?-claimed,
}
use wallet_service.Guarantees.{IsStanding, IsQuiet}

-- A claim, run.
abbrev pub claim : TransferService → Uuid → Uuid → World → Outcome ClaimResult × World
claim svc caller transfer_id w = run (claim_back svc caller transfer_id) w

-- On a standing ledger, and with `calm` any condition under which no statement fails and a
-- reversal of the caller's own active transfer takes no balance below zero or beyond 64 bits:
-- every call of `ClaimBack` ends in a result or an error, never in a panic, with no transaction
-- left open. A result means the transfer was reversed in full, by its sender and within its
-- window, or is the stored outcome of an earlier reversal, with nothing changed. An error has one
-- of the listed causes and changes nothing, but for a lost answer to the commit, where all of the
-- reversal or none is stored. Under `calm` there is no error of the storage.
pub claim_back-outcome :
    (svc : TransferService) (caller transfer_id : Uuid) (w : World) (calm : Type 0)
    → IsStanding svc w
    → (calm → IsQuiet w)
    → (calm
        → (tr : Transfer) → find_transfer transfer_id w.db.transfers ≡ some tr
        → tr.sender_id ≡ caller
        → is_active svc.claim_window w.clock tr ≡ true
        → (pos 0 ≤ℤ sender_restored svc tr w.db) × (pos 0 ≤ℤ recipient_restored svc tr w.db))
    → Post
        (λ r w'. Claimed svc caller transfer_id w.db w.clock r w' × (w'.tx ≡ none))
        (λ e w'. NotClaimed svc caller transfer_id w.db w.clock calm e w' × (w'.tx ≡ none))
        (claim svc caller transfer_id w)
claim_back-outcome svc caller transfer_id w calm h quiet room =
    (claim_back-Runs svc caller transfer_id w.db w.clock calm h.sound.rows room w
      (record { kept = refl; closed = h.closed; quiet = quiet; since = omega arith })).post

module _ (svc : TransferService) (caller transfer_id : Uuid) (w : World)
    (standing : IsStanding svc w) (quiet : IsQuiet w) (tr : Transfer)
    (found : find_transfer transfer_id w.db.transfers ≡ some tr)
    (room : balance_or_zero tr.sender_id w.db +ℤ tr.amount_paise <ℤ pos (2 ^ 63)) where
  row : IsWellFormed w.db.wallets tr × (tr.id ≡ transfer_id)
  row =
      find_transfer_row (IsWellFormed w.db.wallets) transfer_id w.db.transfers tr
        standing.sound.rows found

  found_row : find_transfer tr.id w.db.transfers ≡ some tr
  found_row = subst (λ i. find_transfer i w.db.transfers ≡ some tr) (sym row.1) found

  sender_has : balance? tr.sender_id w.db.wallets ≡ some (balance_or_zero tr.sender_id w.db)
  sender_has = let (x, p) = has_value row.0.sender_wallet in ground arith

  recipient_has :
      balance? tr.recipient_id w.db.wallets ≡ some (balance_or_zero tr.recipient_id w.db)
  recipient_has = let (x, p) = has_value row.0.recipient_wallet in ground arith

  sender_restored_nonneg : pos 0 ≤ℤ sender_restored svc tr w.db
  sender_restored_nonneg =
      let b = standing.sound.balances tr.sender_id _ sender_has in
      let p = row.0.positive in
      rw (wrap64_of_InRange _ (room, omega (int_laws, b, p))) (omega (int_laws, b, p))

  module _ (t : Time) (since : w.clock ≤ t) (active : is_active svc.claim_window t tr ≡ true) where
    recipient_nonneg : pos 0 ≤ℤ recipient_restored svc tr w.db
    recipient_nonneg =
        recipient_restored_nonneg svc tr t t w.db _ _ (IsSound-later standing.sound t since)
          found_row sender_has recipient_has active

    recipient_exact :
        recipient_restored svc tr w.db ≡ balance_or_zero tr.recipient_id w.db -ℤ tr.amount_paise
    recipient_exact =
        recipient_restored_exact svc tr t t w.db _ _ (IsSound-later standing.sound t since)
          found_row sender_has recipient_has active

    sender_exact :
        sender_restored svc tr w.db ≡ balance_or_zero tr.sender_id w.db +ℤ tr.amount_paise
    sender_exact =
        sender_restored_exact svc tr t t w.db _ _ (IsSound-later standing.sound t since) found_row
          sender_has recipient_has active sender_restored_nonneg

    balance?-after :
        (j : Uuid)
        → balance? j (claimed svc tr t w.db).wallets ≡ (
            if tr.sender_id == j
            then some (sender_restored svc tr w.db)
            else if tr.recipient_id == j
            then some (recipient_restored svc tr w.db)
            else balance? j w.db.wallets)
    balance?-after j =
        balance?-claimed svc tr t t w.db _ _ (IsSound-later standing.sound t since) found_row
          sender_has recipient_has j

  pub feasible :
      (x : Transfer)
      → find_transfer transfer_id w.db.transfers ≡ some x
      → x.sender_id ≡ caller
      → is_active svc.claim_window w.clock x ≡ true
      → (pos 0 ≤ℤ sender_restored svc x w.db) × (pos 0 ≤ℤ recipient_restored svc x w.db)
  feasible x f mine active =
      subst
        (λ x.
          is_active svc.claim_window w.clock x ≡ true
          → (pos 0 ≤ℤ sender_restored svc x w.db) × (pos 0 ≤ℤ recipient_restored svc x w.db))
        (some-injective tr x (sym found ∙ f))
        (λ a. (sender_restored_nonneg, recipient_nonneg w.clock (omega arith) a)) active

  -- The balances when the claim has given the money back.
  abbrev pub IsReturned : ClaimResult → World → Type 0
  IsReturned r w' =
      (r.replayed ≡ false)
      × (r.new_balance ≡ balance_or_zero tr.sender_id w.db +ℤ tr.amount_paise)
      × ((j : Uuid)
          → balance? j w'.db.wallets ≡ (
              if tr.sender_id == j
              then some (balance_or_zero tr.sender_id w.db +ℤ tr.amount_paise)
              else if tr.recipient_id == j
              then some (balance_or_zero tr.recipient_id w.db -ℤ tr.amount_paise)
              else balance? j w.db.wallets))

  returned :
      (r : ClaimResult) (w' : World)
      → tr.status ≡ completed
      → Claimed svc caller transfer_id w.db w.clock r w'
      → IsReturned r w'
  returned r w' st (Claim.replayed x f mine rev p e) =
      absurd (cc (st, rev, ap (λ t. t.status) (some-injective tr x (sym found ∙ f))))
  returned r w' st (Claim.applied x t f mine c since until g e) =
      subst (λ x. IsClaim svc x t w.db r → w'.db ≡ claimed svc x t w.db → IsReturned r w')
        (some-injective tr x (sym found ∙ f))
        (λ g e. (
          ap (λ r. r.replayed) g.result,
          ap (λ r. r.new_balance) g.result ∙ sender_exact t since g.active,
          λ j.
              ap (λ d. balance? j d.wallets) e
              ∙ balance?-after t since g.active j
              ∙ rw (sender_exact t since g.active, recipient_exact t since g.active) refl,
        ))
        g e

  module _ (mine : tr.sender_id ≡ caller) (st : tr.status ≡ completed) where
    -- On a standing ledger, a claim by the sender of a completed transfer that is still within its
    -- window when the call ends succeeds, when nothing fails and the sender's balance with the
    -- amount stays below 2^63: the recipient's money cannot run out. The amount has moved back
    -- from the recipient to the sender, and no other balance has changed.
    pub claim_back-pays :
        is_active svc.claim_window (claim svc caller transfer_id w).1.clock tr ≡ true
        → (r : ClaimResult) × ((claim svc caller transfer_id w).0 ≡ Outcome.ok r)
          × IsReturned r (claim svc caller transfer_id w).1
    claim_back-pays open_still =
        Runs-ok
          (Runs-weaken _ w
            (Runs-final (
              claim_back-Runs svc caller transfer_id w.db w.clock Unit standing.sound.rows
                (λ _. feasible) w
                (record {
                  kept = refl;
                  closed = standing.closed;
                  quiet = λ _. quiet;
                  since = omega arith;
                })))
            (λ r w' (x, f). returned r w' st x.0)
            (λ e w' (x, f).
              impossible e w'
                (subst (λ v. is_active svc.claim_window v.clock tr ≡ true) f open_still) x.0))
          (λ e w' x. x)
      where
        impossible :
            (e : Error) (w' : World)
            → is_active svc.claim_window w'.clock tr ≡ true
            → NotClaimed svc caller transfer_id w.db w.clock Unit e w'
            → ⊥
        impossible e w' a (Claim.commit_unknown _ _ _ _ _ n _ _ _ _ _ _ _) = n tt
        impossible e w' a (Claim.refused (Claim.unknown p q) kept) = cc
        impossible e w' a (Claim.refused (Claim.not_sender x f ne q) kept) =
            ne (ap (λ t. t.sender_id) (some-injective x tr (sym f ∙ found)) ∙ mine)
        impossible e w' a (Claim.refused (Claim.storage p n) kept) = n tt
        impossible e w' a (Claim.refused (Claim.expired x t f m c since until closed q) kept) =
            let a' = is_active_earlier svc.claim_window t w'.clock tr until a in
            absurd (
              cc (
                a',
                closed,
                ap (is_active svc.claim_window t) (some-injective x tr (sym f ∙ found)),
              ))
