-- ===== src/Tests/Handlers.antt =====
-- The theorems on the handlers of transfers, and on a decoded body.
use wallet_service.Prelude.{text, pos, ◌≤◌, ◌≡◌, refl, sym, ◌∙◌, subst, some, [], ◌∷◌, arith}
use mathlib.Core.Option.{some-injective}
use wallet_service.Models.{User, Time}
use wallet_service.Sql.Tables.{find_username, find_transfer}
use wallet_service.Prog.{run}
use wallet_service.Prog.Logic.{Post}
use wallet_service.Dto.{TransferRequest, members, decode_into, set_transfer, no_transfer}
use wallet_service.Dto.Filled.{transfer_members, decode_into-transfer_members}
use wallet_service.Transfer.Execute.{order}
use wallet_service.Transfer.Transaction.{IsFeasible}
use wallet_service.Guarantees.Accounts.{beside}
use wallet_service.Guarantees.Execute
use wallet_service.Guarantees.Claim
use wallet_service.Handlers.{Request, App, decode_json}
use wallet_service.Handlers.Transfers.{create_transfer, claim_transfer}
use wallet_service.Handlers.Transfers.Created.{
  requested, Decodes, CreatedClosed, create_transfer-outcome,
}
use wallet_service.Handlers.Transfers.Reversed.{HasRoom, ReversedClosed, claim_transfer-outcome}
use wallet_service.Tests.Data.{svc, bob, empty, pay_bob, paid, paid_bob}
use wallet_service.Tests.Libraries.{auth}
use wallet_service.Tests.Examples.{
  seed_ok, empty-IsStanding, empty-IsQuiet, paid-IsStanding, paid-IsQuiet, pay_bob-IsProper,
  recipient_room, paid_found, sender_room,
}

abbrev bob_request : TransferRequest
bob_request = record { to_user = text "bob"; amount_paise = pos 100; idempotency_key = text "k" }

-- Every body is read as the one that pays Bob.
abbrev app : App
app = record {
  auth = auth;
  wallets = beside svc;
  transfers = svc;
  scan_json = λ n body. some (members (transfer_members bob_request));
}

-- Alice is the caller, and 7 is the id in the path.
abbrev pub by_alice : Request
by_alice = record {
  method = text "POST";
  path = text "transfers" ∷ [];
  authorization = [];
  limit = [];
  body = [];
  pattern = [];
  path_id = 7 ∷ [];
  user_id = some 1;
  now = 0;
  salt = [];
}

decoded : Decodes app by_alice bob_request
unfolding decode_json
decoded = decode_into-transfer_members bob_request (omega arith)

feasible :
    (req : TransferRequest) (u : User) (t : Time)
    → Decodes app by_alice req
    → find_username req.to_user empty.db.users ≡ some u
    → 0 ≤ t
    → IsFeasible svc (order svc (requested by_alice req) u) t empty.db
feasible req u t d f le =
    subst
      (λ q.
        find_username q.to_user empty.db.users ≡ some u
        → IsFeasible svc (order svc (requested by_alice q) u) t empty.db)
      (some-injective bob_request req (sym decoded ∙ d))
      (λ f.
        Execute.feasible svc pay_bob bob empty seed_ok empty-IsStanding empty-IsQuiet
          pay_bob-IsProper recipient_room u t f le)
      f

create_transfer-outcome_example :
    Post
      (CreatedClosed app by_alice empty Unit)
      (λ _ _. ⊥)
      (run (create_transfer app by_alice) empty)
create_transfer-outcome_example =
    create_transfer-outcome app by_alice empty Unit refl (λ _. empty-IsQuiet) (λ _. feasible)

room : HasRoom app by_alice paid Unit
room id tr spelled found mine active =
    Claim.feasible svc 1 7 paid paid-IsStanding paid-IsQuiet paid_bob paid_found sender_room tr
      (subst (λ i. find_transfer i paid.db.transfers ≡ some tr) (sym (some-injective 7 id spelled))
        found)
      mine active

claim_transfer-outcome_example :
    Post (ReversedClosed app by_alice paid Unit) (λ _ _. ⊥) (run (claim_transfer app by_alice) paid)
claim_transfer-outcome_example =
    claim_transfer-outcome app by_alice paid Unit paid-IsStanding (λ _. paid-IsQuiet) (λ _. room)

decode_into-transfer_members_example :
    decode_into set_transfer no_transfer (members (transfer_members bob_request)) ≡ some bob_request
decode_into-transfer_members_example = decode_into-transfer_members bob_request (omega arith)
