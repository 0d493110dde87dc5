-- ===== src/Server/Decoded.antt =====
-- The amount of a decoded transfer is an int64.
use wallet_service.Prelude.{
  ℤ, InRange, Text, text, List, [], ◌∷◌, ◌≡◌, some, arith, inl, inr, Bool-cases, Option-cases,
  subst,
}
use mathlib.Core.Option.{some-injective}
use wallet_service.Config.Loaded.{parse_int-InRange}
use wallet_service.Dto.{
  TransferRequest, Value, Json, members, value, names, read_string, read_int64, set_transfer, fill,
  decode_into, no_transfer,
}
use wallet_service.Handlers.{App, Request, decode_json}

read_int64-InRange : (v : Value) (old n : ℤ) → InRange old → read_int64 v old ≡ some n → InRange n
unfolding read_int64
read_int64-InRange Value.null old n h e = subst InRange (some-injective old n e) h
read_int64-InRange (Value.number s) old n h e = parse_int-InRange s n e
read_int64-InRange Value.array old n h e = cc
read_int64-InRange Value.object old n h e = cc
read_int64-InRange (Value.boolean b) old n h e = cc
read_int64-InRange (Value.string s) old n h e = cc

set_transfer-InRange :
    (key : Text) (v : Value) (req next : TransferRequest)
    → InRange req.amount_paise
    → set_transfer key v req ≡ some next
    → InRange next.amount_paise
unfolding set_transfer
set_transfer-InRange key v req next h e = elim (Bool-cases (names key (text "to_user"))) [
  | inl a ↦ elim (Option-cases (read_string v req.to_user)) [
    | inl n ↦ absurd (cc (rw (set_transfer, a, n) at e))
    | inr (s, n) ↦
        subst (λ x. InRange x.amount_paise) (some-injective _ next (rw (set_transfer, a, n) at e)) h
  ]
  | inr a ↦ elim (Bool-cases (names key (text "amount_paise"))) [
    | inl b ↦ elim (Option-cases (read_int64 v req.amount_paise)) [
      | inl n ↦ absurd (cc (rw (set_transfer, a, b, n) at e))
      | inr (z, n) ↦
          subst (λ x. InRange x.amount_paise)
            (some-injective _ next (rw (set_transfer, a, b, n) at e))
            (read_int64-InRange v req.amount_paise z h n)
    ]
    | inr b ↦ elim (Bool-cases (names key (text "idempotency_key"))) [
      | inr c ↦ absurd (cc (rw (set_transfer, a, b, c) at e))
      | inl c ↦ elim (Option-cases (read_string v req.idempotency_key)) [
        | inl n ↦ absurd (cc (rw (set_transfer, a, b, c, n) at e))
        | inr (s, n) ↦
            subst (λ x. InRange x.amount_paise)
              (some-injective _ next (rw (set_transfer, a, b, c, n) at e)) h
      ]
    ]
  ]
]

fill-InRange :
    (ms : List (Text × Value)) (req last : TransferRequest)
    → InRange req.amount_paise
    → fill set_transfer ms req ≡ some last
    → InRange last.amount_paise
unfolding fill
fill-InRange [] req last h e = subst (λ x. InRange x.amount_paise) (some-injective req last e) h
fill-InRange ((key, v) ∷ ms) req last h e = elim (Option-cases (set_transfer key v req)) [
  | inl n ↦ absurd (cc (rw (fill, n) at e))
  | inr (next, n) ↦
      fill-InRange ms next last (set_transfer-InRange key v req next h n) (rw (fill, n) at e)
]

decode_into-InRange :
    (json : Json) (req : TransferRequest)
    → decode_into set_transfer no_transfer json ≡ some req
    → InRange req.amount_paise
unfolding decode_into
decode_into-InRange (members ms) req e = fill-InRange ms no_transfer req (omega arith) e
decode_into-InRange (value Value.null) req e =
    subst (λ x. InRange x.amount_paise) (some-injective no_transfer req e) (omega arith)
decode_into-InRange (value Value.array) req e = cc
decode_into-InRange (value Value.object) req e = cc
decode_into-InRange (value (Value.boolean b)) req e = cc
decode_into-InRange (value (Value.number s)) req e = cc
decode_into-InRange (value (Value.string s)) req e = cc

pub decode_json-InRange :
    (app : App) (r : Request) (req : TransferRequest)
    → decode_json app set_transfer no_transfer r ≡ some req
    → InRange req.amount_paise
unfolding decode_json
decode_json-InRange app r req e = elim (Option-cases (app.scan_json 65536 r.body)) [
  | inl n ↦ absurd (cc (rw (decode_json, n) at e))
  | inr (json, n) ↦ decode_into-InRange json req (rw (decode_json, n) at e)
]
