-- ===== src/Dto/Filled.antt =====
-- What a client prints is what the handler reads.
use wallet_service.Prelude.{InRange, Text, text, text_eq, List, [], ◌∷◌, ◌≡◌, refl, some}
use wallet_service.Strconv.Printed.{parse_int-decimal}
use wallet_service.Transfer.Hash.{decimal}
use wallet_service.Dto.{
  Value, number, string, members, TransferRequest, fold_name, names, read_string, read_int64,
  set_transfer, fill, decode_into, no_transfer,
}

-- The members of a transfer's body, as `json.Marshal` prints them.
abbrev pub transfer_members : TransferRequest → List (Text × Value)
transfer_members req =
    (text "to_user", string req.to_user)
    ∷ (text "amount_paise", number (decimal req.amount_paise))
    ∷ (text "idempotency_key", string req.idempotency_key)
    ∷ []

-- The body of a transfer with an int64 for its amount is decoded to the request that was printed.
pub decode_into-transfer_members :
    (req : TransferRequest)
    → InRange req.amount_paise
    → decode_into set_transfer no_transfer (members (transfer_members req)) ≡ some req
unfolding decode_into fill set_transfer names fold_name text_eq read_string read_int64
decode_into-transfer_members req fits = rw (parse_int-decimal req.amount_paise fits) refl
