-- ===== src/Handlers/Transfers/Created/Ends.antt =====
-- The answers to POST /transfers, each with its cause and with what it leaves in the tables.
use wallet_service.Prelude.{
  ℤ, pos, ◌≤ℤ◌, ◌<ℤ◌, ◌<◌, ◌≤◌, length, [], ◌∷◌, ◌≡◌, ◌≢◌, ◌⊎◌, none, some,
}
use wallet_service.Models.{Uuid, Time, User, Transfer}
use wallet_service.Sql.Tables.{find_username, find_key}
use wallet_service.Dto.{TransferRequest, set_transfer, no_transfer}
use wallet_service.Prog.{World}
use wallet_service.Transfer.{TransferResult}
use wallet_service.Transfer.Transaction.{IsTransfer, transferred, sender_after, holds}
use wallet_service.Transfer.Execute.{Call, order, call_hash}
use wallet_service.Handlers.{Body, transfer_body, Response, Request, App, decode_json, caller}
use wallet_service.Handlers.Answered.{IsJson, IsError}

-- The call of a request's body, for the caller that the context holds.
abbrev pub requested : Request → TransferRequest → Call
requested r req = record {
  sender = caller r;
  to_username = req.to_user;
  amount = req.amount_paise;
  key = req.idempotency_key;
}

-- The body that shows a transfer's id and the sender's balance.
abbrev pub shown : App → Uuid → ℤ → Body
shown app id balance =
    transfer_body
      (record { transfer_id = app.auth.libraries.uuid_string id; new_balance = balance })

abbrev pub Decodes : App → Request → TransferRequest → Type 0
Decodes app r req = decode_json app set_transfer no_transfer r ≡ some req

module _ (app : App) (r : Request) (w : World) (calm : Type 0) where
  -- Why a decoded request fails, what the answer is, and what it leaves in the tables.
  pub data Failed (req : TransferRequest) (resp : Response) (w' : World) : Type 0 where
    bad_amount :
        req.amount_paise ≤ℤ pos 0
        → IsError 400 "validation_error" resp
        → w'.db ≡ w.db
        → Failed req resp w'
    bad_key :
        (length req.idempotency_key ≡ 0) ⊎ (128 < length req.idempotency_key)
        → IsError 400 "validation_error" resp
        → w'.db ≡ w.db
        → Failed req resp w'
    no_recipient :
        find_username req.to_user w.db.users ≡ none
        → IsError 404 "unknown_recipient" resp
        → w'.db ≡ w.db
        → Failed req resp w'
    to_self :
        (u : User)
        → find_username req.to_user w.db.users ≡ some u
        → u.id ≡ caller r
        → IsError 400 "self_transfer" resp
        → w'.db ≡ w.db
        → Failed req resp w'
    short :
        (u : User) (t : Time)
        → find_username req.to_user w.db.users ≡ some u
        → w.clock ≤ t
        → find_key (caller r) req.idempotency_key w.db.transfers ≡ none
        → sender_after app.transfers (order app.transfers (requested r req) u) w.db
          <ℤ holds app.transfers (order app.transfers (requested r req) u) t w.db
        → IsError 422 "insufficient_funds" resp
        → w'.db ≡ w.db
        → Failed req resp w'
    conflict :
        (old : Transfer)
        → find_key (caller r) req.idempotency_key w.db.transfers ≡ some old
        → old.body_hash ≢ call_hash app.transfers (requested r req)
        → IsError 409 "idempotency_conflict" resp
        → w'.db ≡ w.db
        → Failed req resp w'
    storage : ¬ calm → IsError 503 "service_unavailable" resp → w'.db ≡ w.db → Failed req resp w'
    commit_unknown :
        (u : User) (t : Time) (result : TransferResult)
        → ¬ calm
        → IsError 503 "service_unavailable" resp
        → find_username req.to_user w.db.users ≡ some u
        → IsTransfer app.transfers (order app.transfers (requested r req) u) t w.db result
        → w'.db
          ≡ transferred app.transfers
              (order app.transfers (requested r req) u)
              t
              result.transfer_id
              w.db
        → Failed req resp w'

  pub data Created (resp : Response) (w' : World) : Type 0 where
    applied :
        (req : TransferRequest) (u : User) (t : Time) (result : TransferResult)
        → Decodes app r req
        → find_username req.to_user w.db.users ≡ some u
        → IsTransfer app.transfers (order app.transfers (requested r req) u) t w.db result
        → w'.db
          ≡ transferred app.transfers
              (order app.transfers (requested r req) u)
              t
              result.transfer_id
              w.db
        → IsJson 201 [] (shown app result.transfer_id result.new_balance) resp
        → Created resp w'
    replayed :
        (req : TransferRequest) (old : Transfer)
        → Decodes app r req
        → find_key (caller r) req.idempotency_key w.db.transfers ≡ some old
        → old.body_hash ≡ call_hash app.transfers (requested r req)
        → w'.db ≡ w.db
        → IsJson 200
            (("Idempotent-Replay", "true") ∷ [])
            (shown app old.id old.sender_balance_after)
            resp
        → Created resp w'
    malformed :
        decode_json app set_transfer no_transfer r ≡ none
        → w'.db ≡ w.db
        → IsError 400 "invalid_json" resp
        → Created resp w'
    failed : (req : TransferRequest) → Decodes app r req → Failed req resp w' → Created resp w'
