-- ===== src/Guarantees/Funds.antt =====
-- When the money moves and when it does not.
use wallet_service.Prelude.{
  ℤ, pos, ◌+ℤ◌, ◌-ℤ◌, ◌≤ℤ◌, ◌<ℤ◌, ◌≤◌, ◌^◌, InRange, int_laws, bounds_of_eq, ◌≡◌, refl, sym, ap,
  ◌∙◌, subst, false, none, some, arith, ◌==◌, wrap64_of_InRange, wrap64-sub, if◌then◌else◌,
}
use mathlib.Core.Option.{some-injective}
use wallet_service.Errors.{Error, sentinel, insufficient_funds}
use wallet_service.Models.{Uuid, Time, User}
use wallet_service.Sql.Tables.{find_key, active_holds}
use wallet_service.Sql.Tables.Balances.{balance?}
use wallet_service.Sql.Tables.Holds.{active_holds-antitone, active_holds_nonneg}
use wallet_service.Prog.{World, Outcome}
use wallet_service.Prog.Logic.{Runs-ok, Runs-err, Runs-weaken, Runs-final}
use wallet_service.Transfer.{TransferService, TransferResult}
use wallet_service.Transfer.Transaction.{
  IsTransfer, transferred, balance_or_seed, sender_after, recipient_after, holds,
}
use wallet_service.Transfer.Execute.{Call, order, Executed, applied, replayed}
use wallet_service.Ledger.{positive}
use wallet_service.Ledger.Transferred.{balance?-transferred, before_ok}
use wallet_service.Guarantees.{HasSeed, IsStanding, IsQuiet, IsProper}
use wallet_service.Guarantees.Execute.{call, Declined, no_funds, other_body, quiet-Runs}

module _ (svc : TransferService) (k : Call) (u : User) (w : World) (seed_ok : HasSeed svc)
    (standing : IsStanding svc w) (quiet : IsQuiet w) (proper : IsProper k u w.db) where
  -- The balance before the call, which is the seed for a user without a wallet.
  abbrev pub had : Uuid → ℤ
  had j = balance_or_seed svc (order svc k u) j w.db

  abbrev pub held : ℤ
  held = active_holds k.sender svc.claim_window w.clock w.db.transfers

  had_ok : (j : Uuid) → (pos 0 ≤ℤ had j) × InRange (had j)
  had_ok j = before_ok svc (order svc k u) proper.distinct w.clock w.db 0 seed_ok standing.sound j

  sender_after_exact : sender_after svc (order svc k u) w.db ≡ had k.sender -ℤ k.amount
  sender_after_exact =
      wrap64-sub _ _ (had_ok k.sender) (omega (arith, proper.positive), proper.fits)

  recipient_after_exact :
      had u.id +ℤ k.amount <ℤ pos (2 ^ 63)
      → recipient_after svc (order svc k u) w.db ≡ had u.id +ℤ k.amount
  recipient_after_exact room =
      wrap64_of_InRange _ (room, omega (int_laws, had_ok u.id, proper.positive))

  recipient_after_nonneg :
      had u.id +ℤ k.amount <ℤ pos (2 ^ 63) → pos 0 ≤ℤ recipient_after svc (order svc k u) w.db
  recipient_after_nonneg room =
      rw (recipient_after_exact room) (omega (int_laws, had_ok u.id, proper.positive))

  -- Holds only expire while a call runs.
  holds_fall : (t : Time) → w.clock ≤ t → holds svc (order svc k u) t w.db ≤ℤ held
  holds_fall t le =
      active_holds-antitone k.sender svc.claim_window w.clock t w.db.transfers le
        (positive standing.sound)

  holds_nonneg : (t : Time) → pos 0 ≤ℤ holds svc (order svc k u) t w.db
  holds_nonneg t =
      active_holds_nonneg k.sender svc.claim_window t w.db.transfers (positive standing.sound)

  -- The balances when the call has moved the money.
  abbrev pub IsMoved : TransferResult → World → Type 0
  IsMoved r w' =
      (r.replayed ≡ false)
      × (r.new_balance ≡ had k.sender -ℤ k.amount)
      × ((j : Uuid)
          → balance? j w'.db.wallets ≡ (
              if u.id == j
              then some (had u.id +ℤ k.amount)
              else if k.sender == j
              then some (had k.sender -ℤ k.amount)
              else balance? j w.db.wallets))

  moved :
      (r : TransferResult) (w' : World)
      → had u.id +ℤ k.amount <ℤ pos (2 ^ 63)
      → find_key k.sender k.key w.db.transfers ≡ none
      → Executed svc k w.db w.clock r w'
      → IsMoved r w'
  moved r w' room unclaimed (replayed old found same p e) = cc
  moved r w' room unclaimed (applied v t found ne from until g e) =
      subst
        (λ x.
          IsTransfer svc (order svc k x) t w.db r
          → w'.db ≡ transferred svc (order svc k x) t r.transfer_id w.db
          → IsMoved r w')
        (some-injective u v (sym proper.found ∙ found))
        (λ g e. (
          g.replayed,
          g.new_balance ∙ sender_after_exact,
          λ j.
              ap (λ d. balance? j d.wallets) e
              ∙ balance?-transferred svc (order svc k u) proper.distinct t w.db r.transfer_id j
              ∙ rw (recipient_after_exact room, sender_after_exact) refl,
        ))
        g e

  -- On a standing ledger, a proper call (the sender exists, the recipient is found and is somebody
  -- else, the amount is a positive int64, the key has 1 to 128 bytes) under a key that is new,
  -- whose sender has the amount besides its active holds and whose recipient's balance with the
  -- amount stays below 2^63, succeeds when nothing fails: the result is the sender's new balance,
  -- the amount has moved from the sender to the recipient, where a new wallet starts with the
  -- seed, and no other balance has changed. The seed is an int64 that is not negative.
  pub execute-moves :
      find_key k.sender k.key w.db.transfers ≡ none
      → held +ℤ k.amount ≤ℤ had k.sender
      → had u.id +ℤ k.amount <ℤ pos (2 ^ 63)
      → (r : TransferResult) × ((call svc k w).0 ≡ Outcome.ok r) × IsMoved r (call svc k w).1
  execute-moves unclaimed funds room =
      Runs-ok
        (Runs-weaken _ w
          (quiet-Runs svc k u w seed_ok standing quiet proper (λ _. recipient_after_nonneg room))
          (λ r w' x. moved r w' room unclaimed x) (λ e w' x. impossible e x.0))
        (λ e w' x. x)
    where
      impossible : (e : Error) → Declined svc k u w seed_ok standing quiet proper e → ⊥
      impossible e (no_funds t p q le lt) =
          omega (int_laws, lt, bounds_of_eq sender_after_exact, holds_fall t le, funds)
      impossible e (other_body old found p q) = cc

  -- The amount is more than what the sender may spend at that time.
  abbrev pub Over : Time → Type 0
  Over t = had k.sender <ℤ active_holds k.sender svc.claim_window t w.db.transfers +ℤ k.amount

  -- On a standing ledger, a proper call under a key that is new, for more than the sender has
  -- besides the money that is still claimable when the call ends, is refused for insufficient
  -- funds when nothing fails and the recipient's balance with the amount stays below 2^63, and the
  -- tables stay as they are. The seed is an int64 that is not negative.
  pub execute-overdraft :
      find_key k.sender k.key w.db.transfers ≡ none
      → had u.id +ℤ k.amount <ℤ pos (2 ^ 63)
      → Over (call svc k w).1.clock
      → ((call svc k w).0 ≡ Outcome.err (sentinel insufficient_funds))
        × ((call svc k w).1.db ≡ w.db)
  execute-overdraft unclaimed room over =
      let (e, p, (x, same)) =
        Runs-err
          (Runs-weaken _ w
            (Runs-final (
              quiet-Runs svc k u w seed_ok standing quiet proper
                (λ _. recipient_after_nonneg room)))
            (λ r w' (x, f). impossible r w' x (subst (λ v. Over v.clock) f over)) (λ e w' x. x.0))
          (λ r w' x. x) in
      (p ∙ ap Outcome.err (why e x), same)
    where
      impossible :
          (r : TransferResult) (w' : World) → Executed svc k w.db w.clock r w' → Over w'.clock → ⊥
      impossible r w' (replayed old found same p e) o = cc
      impossible r w' (applied v t found ne from until g e) o = omega (
        int_laws,
        o,
        bounds_of_eq sender_after_exact,
        g.covered,
        active_holds-antitone k.sender svc.claim_window t w'.clock w.db.transfers until
            (positive standing.sound),
      )

      why :
          (e : Error)
          → Declined svc k u w seed_ok standing quiet proper e
          → e ≡ sentinel insufficient_funds
      why e (no_funds t p q le lt) = p
      why e (other_body old found p q) = cc
