-- ===== src/Guarantees/Retry.antt =====
-- A key that is sent again.
use wallet_service.Prelude.{
  ℤ, ◌≡◌, ◌≢◌, refl, sym, ap, ◌∙◌, true, none, some, Bool-cases, List, [], ◌∷◌, ◌++◌, ◌&&◌, inl,
  inr, arith, ◌==◌, Text, text_eq, text_eq_refl,
}
use mathlib.Core.Option.{some-injective}
use wallet_service.Errors.{Error, sentinel, idempotency_conflict}
use wallet_service.Models.{Uuid, Time, User, Transfer, Db}
use wallet_service.Sql.{recorded}
use wallet_service.Sql.Tables.{find_key}
use wallet_service.Prog.{World, Outcome}
use wallet_service.Prog.Logic.{Runs-ok, Runs-err, Runs-weaken, Runs-returned}
use wallet_service.Transfer.{TransferService, TransferResult}
use wallet_service.Transfer.Transaction.{order_draft}
use wallet_service.Transfer.Execute.{Call, call_hash, order, stored, Executed, applied, replayed}
use wallet_service.Transfer.Execute.Resolve.{execute-Runs}
use wallet_service.Ledger.Transferred.{transfers-transferred}
use wallet_service.Guarantees.{HasSeed, IsStanding, IsQuiet, IsProper}
use wallet_service.Guarantees.Standing.{start-Idle}
use wallet_service.Guarantees.Execute.{call, Declined, no_funds, other_body, quiet-Runs}

module _ (svc : TransferService) (k : Call) (u : User) (w : World) (seed_ok : HasSeed svc)
    (standing : IsStanding svc w) (quiet : IsQuiet w) (proper : IsProper k u w.db) where
  -- On a standing ledger, when nothing fails, a proper call under a key that already has a
  -- transfer with the same hash of recipient and amount gets that transfer's stored outcome,
  -- marked as a replay, and the tables stay as they are. The seed is an int64 that is not
  -- negative.
  pub execute-replays :
      (old : Transfer)
      → find_key k.sender k.key w.db.transfers ≡ some old
      → old.body_hash ≡ call_hash svc k
      → ((call svc k w).0 ≡ Outcome.ok (stored svc k old)) × ((call svc k w).1.db ≡ w.db)
  execute-replays old found same =
      let (r, p, (q, kept)) =
        Runs-ok
          (Runs-weaken _ w (quiet-Runs svc k u w seed_ok standing quiet proper (λ e. cc))
            (λ r w' x. result r w' x) (λ e w' x. impossible e x.0))
          (λ e w' x. x) in
      (p ∙ ap Outcome.ok q, kept)
    where
      result :
          (r : TransferResult) (w' : World)
          → Executed svc k w.db w.clock r w'
          → (r ≡ stored svc k old) × (w'.db ≡ w.db)
      result r w' (applied v t f ne from until g e) = absurd (cc (g.unclaimed, found))
      result r w' (replayed row f s p e) =
          (p ∙ ap (stored svc k) (some-injective row old (sym f ∙ found)), e)

      impossible : (e : Error) → Declined svc k u w seed_ok standing quiet proper e → ⊥
      impossible e (no_funds t p q le lt) = cc
      impossible e (other_body row f p q) =
          p (ap (λ t. t.body_hash) (some-injective row old (sym f ∙ found)) ∙ same)

  -- On a standing ledger, when nothing fails, a proper call under a key that already has a
  -- transfer with another hash is refused as an idempotency conflict, and the tables stay as they
  -- are. The seed is an int64 that is not negative.
  pub execute-conflicts :
      (old : Transfer)
      → find_key k.sender k.key w.db.transfers ≡ some old
      → old.body_hash ≢ call_hash svc k
      → ((call svc k w).0 ≡ Outcome.err (sentinel idempotency_conflict))
        × ((call svc k w).1.db ≡ w.db)
  execute-conflicts old found differs =
      let (e, p, (x, same)) =
        Runs-err
          (Runs-weaken _ w (quiet-Runs svc k u w seed_ok standing quiet proper (λ e. cc))
            (λ r w' x. impossible r w' x) (λ e w' x. x))
          (λ r w' x. x) in
      (p ∙ ap Outcome.err (why e x), same)
    where
      impossible : (r : TransferResult) (w' : World) → Executed svc k w.db w.clock r w' → ⊥
      impossible r w' (applied v t f ne from until g e) = cc (g.unclaimed, found)
      impossible r w' (replayed row f s p e) =
          differs (ap (λ t. t.body_hash) (some-injective old row (sym found ∙ f)) ∙ s)

      why :
          (e : Error)
          → Declined svc k u w seed_ok standing quiet proper e
          → e ≡ sentinel idempotency_conflict
      why e (no_funds t p q le lt) = cc
      why e (other_body row f p q) = q

find_key-append :
    (sender : Uuid) (key : Text) (ts : List Transfer) (row : Transfer)
    → find_key sender key ts ≡ none
    → row.sender_id ≡ sender
    → row.idempotency_key ≡ key
    → find_key sender key (ts ++ row ∷ []) ≡ some row
unfolding find_key
find_key-append sender key [] row h s t = rw (s, t, text_eq_refl key) (ground arith)
find_key-append sender key (x ∷ ts) row h s t =
    elim (Bool-cases (x.sender_id == sender && text_eq x.idempotency_key key)) [
      | inl here ↦ absurd (cc (rw here at h))
      | inr on ↦ rw on (find_key-append sender key ts row (rw on at h) s t)
    ]

-- The row under the key, once the call has returned.
key_row :
    (svc : TransferService) (k : Call) (c : Db) (from : Time) (r : TransferResult) (w : World)
    → Executed svc k c from r w
    → (old : Transfer) × (find_key k.sender k.key w.db.transfers ≡ some old)
      × (old.body_hash ≡ call_hash svc k)
      × (stored svc k old ≡ record r { replayed = true })
key_row svc k c from r w (applied u t f ne since until g e) = (
  recorded (order_draft svc (order svc k u) c) t r.transfer_id,
  ap (λ d. find_key k.sender k.key d.transfers) e
      ∙ ap (find_key k.sender k.key)
          (transfers-transferred svc (order svc k u) ne t c r.transfer_id)
      ∙ find_key-append k.sender k.key c.transfers _ g.unclaimed refl refl,
  refl,
  ap {A = ℤ} (λ b. record { transfer_id = r.transfer_id; new_balance = b; replayed = true })
      (sym g.new_balance),
)
key_row svc k c from r w (replayed old f same p e) = (
  old,
  ap (λ d. find_key k.sender k.key d.transfers) e ∙ f,
  same,
  ap {A = TransferResult} (λ x. record x { replayed = true }) (sym p),
)

-- A call that succeeded, under any timing and failures, is sent again when the ledger is standing
-- and the call is proper: as long as the row under its key is as the first call left it, a second
-- call during which nothing fails gives the same transfer and the same balance, marked as a
-- replay, and changes nothing. So a client that lost its answer can ask again, and the money moves
-- once. The seed is an int64 that is not negative.
pub execute-retry :
    (svc : TransferService) (k : Call) (u : User) (w later : World) (r : TransferResult)
    → HasSeed svc
    → w.tx ≡ none
    → (call svc k w).0 ≡ Outcome.ok r
    → IsStanding svc later
    → IsQuiet later
    → IsProper k u later.db
    → find_key k.sender k.key later.db.transfers
      ≡ find_key k.sender k.key (call svc k w).1.db.transfers
    → ((call svc k later).0 ≡ Outcome.ok (record r { replayed = true }))
      × ((call svc k later).1.db ≡ later.db)
execute-retry svc k u w later r seed_ok c done standing quiet proper row =
    let (x, _) =
      Runs-returned (execute-Runs svc k w.db w.clock ⊥ (λ q. absurd q) w (start-Idle w c)) r done in
    let (old, found, same, p) = key_row svc k w.db w.clock r _ x in
    let (again, kept) =
      execute-replays svc k u later seed_ok standing quiet proper old (row ∙ found) same in
    (again ∙ ap Outcome.ok p, kept)
