-- ===== src/Handlers/Transfers/Created.antt =====
-- What the status of an answer to POST /transfers says of the tables.
pub mod Ends
pub use Ends.*
use wallet_service.Prelude.{
  ℕ, ℤ, pos, ◌≤ℤ◌, ◌<ℤ◌, ◌<◌, ◌≤◌, String, length, [], ◌∷◌, ◌≡◌, ◌≢◌, ◌⊎◌, refl, sym, ap, ◌∙◌,
  subst, none, some, arith, Option-cases, inl, inr,
}
use wallet_service.Errors.{Error}
use wallet_service.Models.{Uuid, Time, User, Transfer}
use wallet_service.Sql.Tables.{find_username, find_key}
use wallet_service.Dto.{TransferRequest, set_transfer, no_transfer}
use wallet_service.Prog.{World, run}
use wallet_service.Prog.Logic.{Runs, Runs-ret, Runs-weaken, Post}
use wallet_service.Transfer.{TransferResult}
use wallet_service.Transfer.Transaction.{IsFeasible, IsTransfer, transferred, sender_after, holds}
use wallet_service.Transfer.Execute
use wallet_service.Transfer.Execute.{Call, order, call_hash, Executed, NotExecuted, IsStorage}
use wallet_service.Transfer.Execute.Resolve.{execute-Runs}
use wallet_service.Repository.Idle.{Idle}
use wallet_service.Guarantees.{IsQuiet}
use wallet_service.Handlers.{
  Body, transfer_body, Response, Request, App, decode_json, caller, write_domain_error,
}
use wallet_service.Handlers.Answered.{Answered, IsJson, IsError, storage-IsError, handled-Runs}
use wallet_service.Handlers.Transfers.{create_transfer, created_response}

module _ (app : App) (r : Request) (w : World) (calm : Type 0) where
  abbrev pub CreatedClosed : Response → World → Type 0
  CreatedClosed resp w' = Created app r w calm resp w' × (w'.tx ≡ none)

  module _ (req : TransferRequest) (decodes : Decodes app r req) where
    abbrev k : Call
    k = requested r req

    result-Created :
        (a : TransferResult) (resp : Response) (w' : World)
        → Executed app.transfers k w.db w.clock a w'
        → resp ≡ created_response app a
        → Created app r w calm resp w'
    result-Created a resp w' (Execute.applied u t found ne from until g e) p =
        applied req u t a decodes found g e (p ∙ rw (g.replayed) refl)
    result-Created a resp w' (Execute.replayed old found same q e) p =
        replayed req old decodes found same e (p ∙ ap (created_response app) q)

    -- An error that is known answers as it is documented.
    answer :
        {status : ℕ} {code : String} (e e' : Error) (resp : Response)
        → resp ≡ write_domain_error e
        → e ≡ e'
        → IsError status code (write_domain_error e')
        → IsError status code resp
    answer {status} {code} e e' resp p q h =
        subst (IsError status code) (sym (p ∙ ap write_domain_error q)) h

    NotExecuted-Failed :
        (e : Error) (resp : Response) (w₀ w' : World)
        → NotExecuted app.transfers k w.db w.clock calm e w₀
        → resp ≡ write_domain_error e
        → w'.db ≡ w₀.db
        → Failed app r w calm req resp w'
    unfolding write_domain_error
    NotExecuted-Failed e resp w₀ w' (Execute.refused (Execute.bad_amount h q) same) p d =
        bad_amount h (answer e _ resp p q (_, refl)) (d ∙ same)
    NotExecuted-Failed e resp w₀ w' (Execute.refused (Execute.bad_key h q) same) p d =
        bad_key h (answer e _ resp p q (_, refl)) (d ∙ same)
    NotExecuted-Failed e resp w₀ w' (Execute.refused (Execute.no_recipient h q) same) p d =
        no_recipient h (answer e _ resp p q (_, refl)) (d ∙ same)
    NotExecuted-Failed e resp w₀ w' (Execute.refused (Execute.to_self u f h q) same) p d =
        to_self u f h (answer e _ resp p q (_, refl)) (d ∙ same)
    NotExecuted-Failed e resp w₀ w' (Execute.refused (Execute.short u t f le n lt q) same) p d =
        short u t f le n lt (answer e _ resp p q (_, refl)) (d ∙ same)
    NotExecuted-Failed e resp w₀ w' (Execute.refused (Execute.conflict old f h q) same) p d =
        conflict old f h (answer e _ resp p q (_, refl)) (d ∙ same)
    NotExecuted-Failed e resp w₀ w' (Execute.refused (Execute.storage s n) same) p d =
        storage n (storage-IsError e resp p s) (d ∙ same)
    NotExecuted-Failed e resp w₀ w'
          (Execute.commit_unknown u t a x q n f ne from until g (inl same)) p d =
        storage n (storage-IsError e resp p (subst IsStorage (sym q) tt)) (d ∙ same)
    NotExecuted-Failed e resp w₀ w' (Execute.commit_unknown u t a x q n f ne from until g (inr all))
          p d =
        commit_unknown u t a n (storage-IsError e resp p (subst IsStorage (sym q) tt)) f g (d ∙ all)

    Answered-Created :
        (resp : Response) (w' : World)
        → Answered
            (created_response app)
            (λ a w'. Executed app.transfers k w.db w.clock a w' × (w'.tx ≡ none))
            (λ e w'. NotExecuted app.transfers k w.db w.clock calm e w' × (w'.tx ≡ none))
            resp
            w'
        → CreatedClosed resp w'
    Answered-Created resp w' (Answered.returned a (x, c) p) = (result-Created a resp w' x p, c)
    Answered-Created resp w' (Answered.failed e w₀ (x, c) p q t l) =
        (failed req decodes (NotExecuted-Failed e resp w₀ w' x p q), t ∙ c)

  abbrev pub IsAble : Type 0
  IsAble =
      calm
      → (req : TransferRequest) (u : User) (t : Time) → Decodes app r req
      → find_username req.to_user w.db.users ≡ some u
      → w.clock ≤ t
      → IsFeasible app.transfers (order app.transfers (requested r req) u) t w.db

  pub create_transfer-Runs :
      Idle w.db w.clock calm w → IsAble → Runs (create_transfer app r) w CreatedClosed (λ _ _. ⊥)
  unfolding create_transfer
  create_transfer-Runs h able = elim (Option-cases (decode_json app set_transfer no_transfer r)) [
    | inl e ↦ rw (create_transfer, e) (Runs-ret _ (malformed e refl (_, refl), h.closed))
    | inr (req, e) ↦
        rw (create_transfer, e)
          (Runs-weaken _ w
            (handled-Runs (created_response app) _ _ _ w (
              execute-Runs app.transfers (requested r req) w.db w.clock calm
                (λ c u t. able c req u t e) w h))
            (λ resp w' x. Answered-Created req e resp w' x) (λ _ _ x. x))
  ]

-- With no transaction open, and with `calm` any condition under which no statement fails and the
-- transaction of the decoded body is feasible: POST /transfers is always answered, with no
-- transaction left open. The answer is 201 with the transfer applied in full for the caller, its id
-- and the new balance; or 200 with the replay header, the stored outcome of the key and nothing
-- changed; or an error. A body that is not decoded gives 400 invalid_json, an amount that is not
-- positive or a key that is empty or too long 400 validation_error, a recipient that there is not
-- 404, the caller as recipient 400 self_transfer, an amount beyond what the caller may spend 422, a
-- key with another hash 409, all with nothing changed. 503 service_unavailable is answered only
-- when `calm` does not hold, with nothing changed or, if the answer to the commit was lost, with the
-- transfer applied in full.
pub create_transfer-outcome :
    (app : App) (r : Request) (w : World) (calm : Type 0)
    → w.tx ≡ none
    → (calm → IsQuiet w)
    → (calm
        → (req : TransferRequest) (u : User) (t : Time) → Decodes app r req
        → find_username req.to_user w.db.users ≡ some u
        → w.clock ≤ t
        → IsFeasible app.transfers (order app.transfers (requested r req) u) t w.db)
    → Post (CreatedClosed app r w calm) (λ _ _. ⊥) (run (create_transfer app r) w)
create_transfer-outcome app r w calm closed quiet feasible =
    (create_transfer-Runs app r w calm
      (record { kept = refl; closed = closed; quiet = quiet; since = omega arith }) feasible).post
