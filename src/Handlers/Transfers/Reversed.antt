-- ===== src/Handlers/Transfers/Reversed.antt =====
-- What the status of an answer to POST /transfers/{id}/claim says of the tables.
use wallet_service.Prelude.{
  ◌≤◌, ℤ, pos, ◌≤ℤ◌, text, [], ◌∷◌, ◌≡◌, ◌≢◌, refl, sym, ap, ◌∙◌, subst, true, false, none, some,
  arith, Option-cases, inl, inr,
}
use wallet_service.Errors.{Error}
use wallet_service.Models.{Uuid, Time, Transfer, completed, reversed}
use wallet_service.Sql.Tables.{find_transfer, is_active}
use wallet_service.Prog.{World, run}
use wallet_service.Prog.Logic.{Runs, Runs-ret, Runs-weaken, Post}
use wallet_service.Repository.Idle.{Idle}
use wallet_service.Transfer.ClaimBack.{ClaimResult}
use wallet_service.Transfer.Claim
use wallet_service.Transfer.Claim.{
  sender_restored, recipient_restored, claimed, IsClaim, StoredClaim, Claimed, NotClaimed,
}
use wallet_service.Transfer.Claim.Resolve.{claim_back-Runs}
use wallet_service.Guarantees.{IsStanding, IsQuiet}
use wallet_service.Transfer.Execute.{IsStorage}
use wallet_service.Handlers.{Body, claim_body, Response, Request, App, caller, write_domain_error}
use wallet_service.Handlers.Answered.{Answered, IsJson, IsError, storage-IsError, handled-Runs}
use wallet_service.Handlers.Transfers.{claim_transfer, claimed_response}

-- The id that the path spells.
abbrev pub Spells : App → Request → Uuid → Type 0
Spells app r id = app.auth.libraries.uuid_parse r.path_id ≡ some id

-- The body that shows a reversal: the transfer's id, the sender's balance and the time.
abbrev pub shown : App → Uuid → ℤ → Time → Body
shown app id balance at = claim_body (record {
  transfer_id = app.auth.libraries.uuid_string id;
  status = text "reversed";
  new_balance = balance;
  reversed_at = at;
})

module _ (app : App) (r : Request) (w : World) (calm : Type 0) where
  -- Why the claim on an id fails, what the answer is, and what it leaves in the tables.
  pub data Failed (id : Uuid) (resp : Response) (w' : World) : Type 0 where
    unknown :
        find_transfer id w.db.transfers ≡ none
        → IsError 404 "not_found" resp
        → w'.db ≡ w.db
        → Failed id resp w'
    not_sender :
        (tr : Transfer)
        → find_transfer id w.db.transfers ≡ some tr
        → tr.sender_id ≢ caller r
        → IsError 404 "not_found" resp
        → w'.db ≡ w.db
        → Failed id resp w'
    expired :
        (tr : Transfer) (t : Time)
        → find_transfer id w.db.transfers ≡ some tr
        → tr.sender_id ≡ caller r
        → tr.status ≡ completed
        → w.clock ≤ t
        → is_active app.transfers.claim_window t tr ≡ false
        → IsError 409 "claim_window_expired" resp
        → w'.db ≡ w.db
        → Failed id resp w'
    storage : ¬ calm → IsError 503 "service_unavailable" resp → w'.db ≡ w.db → Failed id resp w'
    commit_unknown :
        (tr : Transfer) (t : Time) (result : ClaimResult)
        → ¬ calm
        → IsError 503 "service_unavailable" resp
        → find_transfer id w.db.transfers ≡ some tr
        → tr.sender_id ≡ caller r
        → IsClaim app.transfers tr t w.db result
        → w'.db ≡ claimed app.transfers tr t w.db
        → Failed id resp w'

  pub data Reversed (resp : Response) (w' : World) : Type 0 where
    applied :
        (id : Uuid) (tr : Transfer) (t : Time) (result : ClaimResult)
        → Spells app r id
        → find_transfer id w.db.transfers ≡ some tr
        → tr.sender_id ≡ caller r
        → IsClaim app.transfers tr t w.db result
        → w'.db ≡ claimed app.transfers tr t w.db
        → IsJson 200 [] (shown app tr.id (sender_restored app.transfers tr w.db) t) resp
        → Reversed resp w'
    replayed :
        (id : Uuid) (tr : Transfer) (balance : ℤ) (at : Time)
        → Spells app r id
        → find_transfer id w.db.transfers ≡ some tr
        → tr.sender_id ≡ caller r
        → tr.status ≡ reversed
        → tr.sender_balance_after_reversal ≡ some balance
        → tr.reversed_at ≡ some at
        → w'.db ≡ w.db
        → IsJson 200 (("Idempotent-Replay", "true") ∷ []) (shown app tr.id balance at) resp
        → Reversed resp w'
    malformed :
        app.auth.libraries.uuid_parse r.path_id ≡ none
        → w'.db ≡ w.db
        → IsError 404 "not_found" resp
        → Reversed resp w'
    failed : (id : Uuid) → Spells app r id → Failed id resp w' → Reversed resp w'

  abbrev pub ReversedClosed : Response → World → Type 0
  ReversedClosed resp w' = Reversed resp w' × (w'.tx ≡ none)

  module _ (id : Uuid) (spelled : Spells app r id) where
    replayed_response :
        (tr : Transfer) (a : ClaimResult)
        → StoredClaim tr a
        → claimed_response app a ≡ record {
          status = 200;
          headers = ("Content-Type", "application/json") ∷ ("Idempotent-Replay", "true") ∷ [];
          body = shown app tr.id a.new_balance a.reversed_at;
        }
    replayed_response tr a (same, b, t, mark) = rw (same, mark) refl

    result-Reversed :
        (a : ClaimResult) (resp : Response) (w' : World)
        → Claimed app.transfers (caller r) id w.db w.clock a w'
        → resp ≡ claimed_response app a
        → Reversed resp w'
    result-Reversed a resp w' (Claim.applied tr t found mine st from until g e) p =
        applied id tr t a spelled found mine g e (p ∙ ap (claimed_response app) g.result)
    result-Reversed a resp w' (Claim.replayed tr found mine st g e) p =
        replayed id tr a.new_balance a.reversed_at spelled found mine st g.1 g.2 e
          (p ∙ replayed_response tr a g)

    NotClaimed-Failed :
        (e : Error) (resp : Response) (w₀ w' : World)
        → NotClaimed app.transfers (caller r) id w.db w.clock calm e w₀
        → resp ≡ write_domain_error e
        → w'.db ≡ w₀.db
        → Failed id resp w'
    unfolding write_domain_error
    NotClaimed-Failed e resp w₀ w' (Claim.refused (Claim.unknown h q) same) p d =
        unknown h (_, p ∙ ap write_domain_error q) (d ∙ same)
    NotClaimed-Failed e resp w₀ w' (Claim.refused (Claim.not_sender tr f h q) same) p d =
        not_sender tr f h (_, p ∙ ap write_domain_error q) (d ∙ same)
    NotClaimed-Failed e resp w₀ w' (Claim.refused (Claim.expired tr t f m st le l h q) same) p d =
        expired tr t f m st le h (_, p ∙ ap write_domain_error q) (d ∙ same)
    NotClaimed-Failed e resp w₀ w' (Claim.refused (Claim.storage s n) same) p d =
        storage n (storage-IsError e resp p s) (d ∙ same)
    NotClaimed-Failed e resp w₀ w' (Claim.commit_unknown tr t a x q n f m st from l g (inl same)) p
          d =
        storage n (storage-IsError e resp p (subst IsStorage (sym q) tt)) (d ∙ same)
    NotClaimed-Failed e resp w₀ w' (Claim.commit_unknown tr t a x q n f m st from l g (inr all)) p
          d =
        commit_unknown tr t a n (storage-IsError e resp p (subst IsStorage (sym q) tt)) f m g
          (d ∙ all)

    Answered-Reversed :
        (resp : Response) (w' : World)
        → Answered
            (claimed_response app)
            (λ a w'. Claimed app.transfers (caller r) id w.db w.clock a w' × (w'.tx ≡ none))
            (λ e w'. NotClaimed app.transfers (caller r) id w.db w.clock calm e w' × (w'.tx ≡ none))
            resp
            w'
        → ReversedClosed resp w'
    Answered-Reversed resp w' (Answered.returned a (x, c) p) = (result-Reversed a resp w' x p, c)
    Answered-Reversed resp w' (Answered.failed e w₀ (x, c) p q t l) =
        (failed id spelled (NotClaimed-Failed e resp w₀ w' x p q), t ∙ c)

  -- A reversal of the caller's own active transfer that the path names leaves room in both balances.
  abbrev pub HasRoom : Type 0
  HasRoom =
      (id : Uuid) (tr : Transfer)
      → Spells app r id
      → find_transfer id w.db.transfers ≡ some tr
      → tr.sender_id ≡ caller r
      → is_active app.transfers.claim_window w.clock tr ≡ true
      → (pos 0 ≤ℤ sender_restored app.transfers tr w.db)
        × (pos 0 ≤ℤ recipient_restored app.transfers tr w.db)

  pub claim_transfer-Runs :
      IsStanding app.transfers w
      → Idle w.db w.clock calm w
      → (calm → HasRoom)
      → Runs (claim_transfer app r) w ReversedClosed (λ _ _. ⊥)
  unfolding claim_transfer
  claim_transfer-Runs standing h room =
      elim (Option-cases (app.auth.libraries.uuid_parse r.path_id)) [
        | inl e ↦ rw (claim_transfer, e) (Runs-ret _ (malformed e refl (_, refl), h.closed))
        | inr (id, e) ↦
            rw (claim_transfer, e)
              (Runs-weaken _ w
                (handled-Runs (claimed_response app) _ _ _ w (
                  claim_back-Runs app.transfers (caller r) id w.db w.clock calm standing.sound.rows
                    (λ c tr. room c id tr e) w h))
                (λ resp w' x. Answered-Reversed id e resp w' x) (λ _ _ x. x))
      ]

-- On a standing ledger, and with `calm` any condition under which no statement fails and a
-- reversal of the caller's own active transfer that the path names takes no balance below zero or
-- beyond 64 bits: POST /transfers/{id}/claim is always answered, with no transaction left open. The
-- answer is 200 with the caller's transfer reversed in full, the restored balance and the time of
-- the reversal; or 200 with the replay header, the stored outcome of an earlier reversal and nothing
-- changed; or an error. A text that is no id, an id without a transfer and a transfer that is not
-- the caller's give the same 404 not_found, a transfer whose window has ended 409
-- claim_window_expired, all with nothing changed. 503 service_unavailable is answered only when
-- `calm` does not hold, with nothing changed or, if the answer to the commit was lost, with the
-- transfer reversed in full.
pub claim_transfer-outcome :
    (app : App) (r : Request) (w : World) (calm : Type 0)
    → IsStanding app.transfers w
    → (calm → IsQuiet w)
    → (calm → HasRoom app r w calm)
    → Post (ReversedClosed app r w calm) (λ _ _. ⊥) (run (claim_transfer app r) w)
claim_transfer-outcome app r w calm standing quiet room =
    (claim_transfer-Runs app r w calm standing
      (record { kept = refl; closed = standing.closed; quiet = quiet; since = omega arith })
      room).post
