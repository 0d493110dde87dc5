-- ===== src/Guarantees/Status.antt =====
-- What a client may conclude from the status of an error.
use wallet_service.Prelude.{ℕ, pos, ◌≤◌, ◌≡◌, ◌≢◌, refl, sym, subst, true, none, some, ◌≤ℤ◌, arith}
use wallet_service.Errors.{Error, database, wrapped}
use wallet_service.Models.{Uuid, Time, User, Transfer, Db}
use wallet_service.Sql.Tables.{find_username, find_transfer, is_active}
use wallet_service.Prog.{World, Outcome}
use wallet_service.Prog.Logic.{Runs-failed}
use wallet_service.Handlers.{write_domain_error}
use wallet_service.Transfer.{TransferService}
use wallet_service.Transfer.Transaction.{IsFeasible}
use wallet_service.Transfer.Execute
use wallet_service.Transfer.Execute.{Call, order, IsStorage, NotExecuted}
use wallet_service.Transfer.Execute.Resolve.{execute-Runs}
use wallet_service.Transfer.Claim
use wallet_service.Transfer.Claim.{sender_restored, recipient_restored, NotClaimed}
use wallet_service.Transfer.Claim.Resolve.{claim_back-Runs}
use wallet_service.Guarantees.{IsStanding, IsQuiet}
use wallet_service.Guarantees.Execute.{call}
use wallet_service.Guarantees.Claim.{claim}

abbrev pub status_of : Error → ℕ
status_of e = (write_domain_error e).status

-- A storage error is answered with 503.
status-IsStorage : (e : Error) → IsStorage e → status_of e ≡ 503
unfolding write_domain_error
status-IsStorage (database x) s = refl
status-IsStorage (wrapped m (database x)) s = refl
status-IsStorage e s = absurd s

-- The outcome of a failed request as its client reads it: unless the status is 503 nothing has
-- changed, and when nothing fails it is not 503.
abbrev pub IsHonest : Type 0 → Db → Error → World → Type 0
IsHonest calm c e w = (status_of e ≢ 503 → w.db ≡ c) × (calm → status_of e ≢ 503)

unsure :
    (calm : Type 0) (c : Db) (e : Error) (w : World) → IsStorage e → ¬ calm → IsHonest calm c e w
unsure calm c e w s n = ((λ h. absurd (h (status-IsStorage e s))), (λ k. absurd (n k)))

certain :
    {calm : Type 0} {c : Db} {e e' : Error} (w : World)
    → e ≡ e'
    → status_of e' ≢ 503
    → w.db ≡ c
    → IsHonest calm c e w
certain {e} {e'} w q n same = ((λ _. same), λ _. subst (λ x. status_of x ≢ 503) (sym q) n)

pub executed-IsHonest :
    (svc : TransferService) (k : Call) (c : Db) (from : Time) (calm : Type 0) (e : Error)
    (w : World)
    → NotExecuted svc k c from calm e w
    → IsHonest calm c e w
unfolding write_domain_error
executed-IsHonest svc k c from calm e w (Execute.refused (Execute.bad_amount p q) same) =
    certain w q (ground arith) same
executed-IsHonest svc k c from calm e w (Execute.refused (Execute.bad_key p q) same) =
    certain w q (ground arith) same
executed-IsHonest svc k c from calm e w (Execute.refused (Execute.no_recipient p q) same) =
    certain w q (ground arith) same
executed-IsHonest svc k c from calm e w (Execute.refused (Execute.to_self u f p q) same) =
    certain w q (ground arith) same
executed-IsHonest svc k c from calm e w (Execute.refused (Execute.short u t f le p lt q) same) =
    certain w q (ground arith) same
executed-IsHonest svc k c from calm e w (Execute.refused (Execute.conflict o f d q) same) =
    certain w q (ground arith) same
executed-IsHonest svc k c from calm e w (Execute.refused (Execute.storage s n) same) =
    unsure calm c e w s n
executed-IsHonest svc k c from calm e w (Execute.commit_unknown u t r x p n _ _ _ _ _ _) =
    unsure calm c e w (subst IsStorage (sym p) tt) n

pub claimed-IsHonest :
    (svc : TransferService) (caller id : Uuid) (c : Db) (from : Time) (calm : Type 0) (e : Error)
    (w : World)
    → NotClaimed svc caller id c from calm e w
    → IsHonest calm c e w
unfolding write_domain_error
claimed-IsHonest svc caller id c from calm e w (Claim.refused (Claim.unknown p q) same) =
    certain w q (ground arith) same
claimed-IsHonest svc caller id c from calm e w (Claim.refused (Claim.not_sender tr f p q) same) =
    certain w q (ground arith) same
claimed-IsHonest svc caller id c from calm e w
      (Claim.refused (Claim.expired tr t f m st le l p q) same) =
    certain w q (ground arith) same
claimed-IsHonest svc caller id c from calm e w (Claim.refused (Claim.storage s n) same) =
    unsure calm c e w s n
claimed-IsHonest svc caller id c from calm e w (Claim.commit_unknown tr t r x p n _ _ _ _ _ _ _) =
    unsure calm c e w (subst IsStorage (sym p) tt) n

-- With no transaction open, the HTTP status of a transfer that fails tells the client whether it
-- may have taken effect: with any status but 503 the tables are as they were, and a 503 is
-- answered only when `calm` does not hold, which is any condition under which no statement fails
-- and the transaction is feasible.
pub execute-IsHonest :
    (svc : TransferService) (k : Call) (w : World) (calm : Type 0)
    → w.tx ≡ none
    → (calm → IsQuiet w)
    → (calm
        → (u : User) (t : Time) → find_username k.to_username w.db.users ≡ some u
        → w.clock ≤ t
        → IsFeasible svc (order svc k u) t w.db)
    → (e : Error) → (call svc k w).0 ≡ Outcome.err e
    → IsHonest calm w.db e (call svc k w).1
execute-IsHonest svc k w calm c quiet feasible e p =
    executed-IsHonest svc k w.db w.clock calm e _
      (Runs-failed
        (execute-Runs svc k w.db w.clock calm feasible w
          (record { kept = refl; closed = c; quiet = quiet; since = omega arith }))
        e p).0

-- The same for a claim, on a standing ledger: with any status but 503 the tables are as they were,
-- and a 503 is answered only when `calm` does not hold, which is any condition under which no
-- statement fails and a reversal of the caller's own active transfer takes no balance below zero
-- or beyond 64 bits.
pub claim_back-IsHonest :
    (svc : TransferService) (caller transfer_id : Uuid) (w : World) (calm : Type 0)
    → IsStanding svc w
    → (calm → IsQuiet w)
    → (calm
        → (tr : Transfer) → find_transfer transfer_id w.db.transfers ≡ some tr
        → tr.sender_id ≡ caller
        → is_active svc.claim_window w.clock tr ≡ true
        → (pos 0 ≤ℤ sender_restored svc tr w.db) × (pos 0 ≤ℤ recipient_restored svc tr w.db))
    → (e : Error) → (claim svc caller transfer_id w).0 ≡ Outcome.err e
    → IsHonest calm w.db e (claim svc caller transfer_id w).1
claim_back-IsHonest svc caller transfer_id w calm h quiet room e p =
    claimed-IsHonest svc caller transfer_id w.db w.clock calm e _
      (Runs-failed
        (claim_back-Runs svc caller transfer_id w.db w.clock calm h.sound.rows room w
          (record { kept = refl; closed = h.closed; quiet = quiet; since = omega arith }))
        e p).0
