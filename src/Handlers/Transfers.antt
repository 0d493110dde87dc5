-- ===== src/Handlers/Transfers.antt =====
-- internal/handlers/transfer.go: TransferHandler.
pub mod Created
pub mod Reversed
use wallet_service.Prelude.{
  ℕ, String, Text, text, Bool, true, false, Option, none, some, List, [], ◌∷◌, if◌then◌else◌,
}
use wallet_service.Models.{Uuid, Transfer, TransferStatus, completed, reversed}
use wallet_service.Dto.{TransferRequest, set_transfer, no_transfer}
use wallet_service.Prog.{Prog, ret, attempt, ◌>>=◌}
use wallet_service.Transfer.{TransferService, TransferResult, execute, get_by_id}
use wallet_service.Transfer.ClaimBack.{ClaimResult, claim_back}
use wallet_service.Handlers.{
  Body, transfer_body, details_body, claim_body, Response, Request, App, Handler, write_json,
  response, respond, decode_json, invalid_json, caller,
}

abbrev pub uuid_string : App → Uuid → Text
uuid_string app = app.auth.libraries.uuid_string

-- A replay is marked for the client.
abbrev pub replay_header : Bool → List (String × String)
replay_header false = []
replay_header true = ("Idempotent-Replay", "true") ∷ []

abbrev pub created_response : App → TransferResult → Response
created_response app result =
    write_json (replay_header result.replayed) (if result.replayed then 200 else 201) (
      transfer_body (record {
        transfer_id = uuid_string app result.transfer_id;
        new_balance = result.new_balance;
      }))

abbrev pub execute_request : App → Request → TransferRequest → Prog Response
execute_request app r req = do
  result ←
      attempt (execute app.transfers (caller r) req.to_user req.amount_paise req.idempotency_key)
  respond (created_response app) result

-- Create
unfoldable pub create_transfer : App → Handler
create_transfer app r = elim (decode_json app set_transfer no_transfer r) [
  | none ↦ ret invalid_json
  | some req ↦ execute_request app r req
]

abbrev pub status_text : TransferStatus → Text
status_text completed = text "completed"
status_text reversed = text "reversed"

abbrev pub shown_response : App → Transfer → Response
shown_response app tr = write_json [] 200 (
    details_body (record {
      transfer_id = uuid_string app tr.id;
      sender_id = uuid_string app tr.sender_id;
      recipient_id = uuid_string app tr.recipient_id;
      amount_paise = tr.amount_paise;
      status = status_text tr.status;
      created_at = tr.created_at;
      reversed_at = tr.reversed_at;
    }))

abbrev pub no_resource : Response
no_resource = response 404 "not_found" "resource not found"

-- Get
unfoldable pub get_transfer : App → Handler
get_transfer app r = elim (app.auth.libraries.uuid_parse r.path_id) [
  | none ↦ ret no_resource
  | some transfer_id ↦ (do
    found ← attempt (get_by_id app.transfers (caller r) transfer_id)
    respond (shown_response app) found)
]

abbrev pub claimed_response : App → ClaimResult → Response
claimed_response app result = write_json (replay_header result.replayed) 200 (
    claim_body (record {
      transfer_id = uuid_string app result.transfer_id;
      status = text "reversed";
      new_balance = result.new_balance;
      reversed_at = result.reversed_at;
    }))

abbrev pub claim_request : App → Request → Uuid → Prog Response
claim_request app r transfer_id = do
  result ← attempt (claim_back app.transfers (caller r) transfer_id)
  respond (claimed_response app) result

-- Claim
unfoldable pub claim_transfer : App → Handler
claim_transfer app r = elim (app.auth.libraries.uuid_parse r.path_id) [
  | none ↦ ret no_resource
  | some transfer_id ↦ claim_request app r transfer_id
]
