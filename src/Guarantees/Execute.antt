-- ===== src/Guarantees/Execute.antt =====
-- What a caller of `Execute` can count on.
use wallet_service.Prelude.{
  pos, ◌≤ℤ◌, ◌<ℤ◌, ◌≤◌, InRange, Text, ◌≡◌, ◌≢◌, refl, sym, ap, ◌∙◌, subst, true, none, some, List,
  [], ◌∷◌, inl, inr, arith, Option-cases, Bool-cases, text_eq, ◌==◌,
}
use mathlib.Core.Option.{some-injective}
use wallet_service.Errors.{Error, sentinel, insufficient_funds, idempotency_conflict}
use wallet_service.Models.{Time, User, Transfer, Db}
use wallet_service.Sql.{known}
use wallet_service.Sql.Tables.{find_user, find_username, find_key}
use wallet_service.Sql.Tables.Balances.{balance?}
use wallet_service.Sql.Tables.Holds.{active_holds_nonneg}
use wallet_service.Prog.{World, Outcome, run}
use wallet_service.Prog.Logic.{Runs, Runs-weaken, Post}
use wallet_service.Transfer.{TransferService, TransferResult, execute}
use wallet_service.Transfer.Transaction.{IsFeasible, sender_after, recipient_after, holds}
use wallet_service.Transfer.Execute.{
  Call, call_hash, order, Executed, bad_amount, bad_key, no_recipient, to_self, short, conflict,
  storage, NotExecuted, refused, commit_unknown,
}
use wallet_service.Transfer.Execute.Resolve.{execute-Runs}
use wallet_service.Ledger.{IsSound-later, positive}
use wallet_service.Ledger.Rows.{active_holds-eq-zero}
use wallet_service.Guarantees.{HasSeed, IsStanding, IsQuiet, IsProper}

-- A call, run.
abbrev pub call : TransferService → Call → World → Outcome TransferResult × World
call svc k w = run (execute svc k.sender k.to_username k.amount k.key) w

-- With no transaction open, and with `calm` any condition under which no statement fails and the
-- transaction is feasible: every call of `Execute` ends in a result or an error, never in a panic,
-- with no transaction left open. A result means the transfer was applied in full or is the stored
-- outcome of the key, with nothing changed. An error has one of the listed causes and changes
-- nothing, but for a lost answer to the commit, where all of the transfer or none of it is stored.
-- Under `calm` there is no error of the storage.
pub execute-outcome :
    (svc : TransferService) (k : Call) (w : World) (calm : Type 0)
    → w.tx ≡ none
    → (calm → IsQuiet w)
    → (calm
        → (u : User) (t : Time) → find_username k.to_username w.db.users ≡ some u
        → w.clock ≤ t
        → IsFeasible svc (order svc k u) t w.db)
    → Post
        (λ r w'. Executed svc k w.db w.clock r w' × (w'.tx ≡ none))
        (λ e w'. NotExecuted svc k w.db w.clock calm e w' × (w'.tx ≡ none))
        (call svc k w)
execute-outcome svc k w calm c quiet feasible =
    (execute-Runs svc k w.db w.clock calm feasible w
      (record { kept = refl; closed = c; quiet = quiet; since = omega arith })).post

known_of_username :
    (name : Text) (us : List User) (u : User)
    → find_username name us ≡ some u
    → find_user u.id us ≢ none
unfolding find_username find_user
known_of_username name [] u h = cc
known_of_username name (v ∷ us) u h = elim (Bool-cases (text_eq v.username name)) [
  | inl here ↦
      subst (λ x. find_user x.id (v ∷ us) ≢ none) (some-injective v u (rw here at h)) (ground arith)
  | inr on ↦ elim (Bool-cases (v.id == u.id)) [
    | inl same ↦ rw same (λ x. cc)
    | inr other ↦ rw other (known_of_username name us u (rw on at h))
  ]
]

recipient-known :
    (name : Text) (d : Db) (u : User) → find_username name d.users ≡ some u → known u.id d ≡ true
recipient-known name d u h = elim (Option-cases (find_user u.id d.users)) [
  | inl e ↦ absurd (known_of_username name d.users u h e)
  | inr (v, e) ↦ rw (e, known) refl
]

module _ (svc : TransferService) (k : Call) (u : User) (w : World) (seed_ok : HasSeed svc)
    (standing : IsStanding svc w) (quiet : IsQuiet w) (proper : IsProper k u w.db) where
  holds_ok :
      (t : Time)
      → w.clock ≤ t
      → (pos 0 ≤ℤ holds svc (order svc k u) t w.db) × InRange (holds svc (order svc k u) t w.db)
  holds_ok t le =
      let s = IsSound-later standing.sound t le in
      let low = active_holds_nonneg k.sender svc.claim_window t w.db.transfers (positive s) in
      elim (Option-cases (balance? k.sender w.db.wallets)) [
        | inl e ↦
            rw
              (active_holds-eq-zero k.sender svc.claim_window t w.db.wallets w.db.transfers s.rows
                e)
              (omega arith)
        | inr (b, e) ↦ omega (arith, low, s.funded k.sender b e, s.balances k.sender b e)
      ]

  pub feasible :
      (find_key k.sender k.key w.db.transfers ≡ none
        → pos 0 ≤ℤ recipient_after svc (order svc k u) w.db)
      → (v : User) (t : Time) → find_username k.to_username w.db.users ≡ some v
      → w.clock ≤ t
      → IsFeasible svc (order svc k v) t w.db
  feasible room v t found le = record {
    seed_nonneg = seed_ok.0;
    sender_known = proper.sender_known;
    recipient_known = recipient-known k.to_username w.db v found;
    positive = proper.positive;
    holds_fit = (holds_ok t le).1;
    holds_nonneg = (holds_ok t le).0;
    room =
        subst
          (λ x.
            find_key k.sender k.key w.db.transfers ≡ none
            → pos 0 ≤ℤ recipient_after svc (order svc k x) w.db)
          (some-injective u v (sym proper.found ∙ found)) room;
  }

  -- What is left of the refusals: the funds, or another body under the key.
  pub data Declined (e : Error) : Type 0 where
    no_funds :
        (t : Time)
        → e ≡ sentinel insufficient_funds
        → find_key k.sender k.key w.db.transfers ≡ none
        → w.clock ≤ t
        → sender_after svc (order svc k u) w.db <ℤ holds svc (order svc k u) t w.db
        → Declined e
    other_body :
        (old : Transfer)
        → find_key k.sender k.key w.db.transfers ≡ some old
        → old.body_hash ≢ call_hash svc k
        → e ≡ sentinel idempotency_conflict
        → Declined e

  declined :
      (e : Error) (w' : World)
      → NotExecuted svc k w.db w.clock Unit e w'
      → Declined e × (w'.db ≡ w.db)
  declined e w' (commit_unknown v t r x p n _ _ _ _ _ _) = absurd (n tt)
  declined e w' (refused (bad_amount p q) same) = absurd (omega (arith, proper.positive))
  declined e w' (refused (bad_key (inl p) q) same) = absurd (omega (arith, proper.key_given))
  declined e w' (refused (bad_key (inr p) q) same) = absurd (omega (arith, proper.key_short))
  declined e w' (refused (no_recipient p q) same) = cc (proper.found)
  declined e w' (refused (to_self v p s q) same) =
      absurd
        (proper.distinct (sym s ∙ sym (ap (λ x. x.id) (some-injective u v (sym proper.found ∙ p)))))
  declined e w' (refused (storage p n) same) = absurd (n tt)
  declined e w' (refused (conflict old f d q) same) = (other_body old f d q, same)
  declined e w' (refused (short v t f le unclaimed lt q) same) = (
    subst
        (λ x.
          sender_after svc (order svc k x) w.db <ℤ holds svc (order svc k x) t w.db → Declined e)
        (some-injective u v (sym proper.found ∙ f)) (λ lt. no_funds t q unclaimed le lt) lt,
    same,
  )

  pub quiet-Runs :
      (find_key k.sender k.key w.db.transfers ≡ none
        → pos 0 ≤ℤ recipient_after svc (order svc k u) w.db)
      → Runs
          (execute svc k.sender k.to_username k.amount k.key)
          w
          (λ r w'. Executed svc k w.db w.clock r w')
          (λ e w'. Declined e × (w'.db ≡ w.db))
  quiet-Runs room =
      Runs-weaken _ w
        (execute-Runs svc k w.db w.clock Unit (λ _. feasible room) w
          (record {
            kept = refl;
            closed = standing.closed;
            quiet = λ _. quiet;
            since = omega arith;
          }))
        (λ r w' x. x.0) (λ e w' x. declined e w' x.0)
