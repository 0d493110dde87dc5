-- ===== src/Transfer/Hash.antt =====
-- `hashBody` of internal/service/transfer.go. SHA-256 is an argument; the text that it is given,
-- `fmt.Appendf("%s|%d", …)`, and its hex print are written out.
pub mod Injective
use wallet_service.Prelude.{
  ℕ, zero, suc, ◌+◌, ◌-◌, ◌/◌, ◌%◌, ℤ, pos, negsuc, Text, List, [], ◌∷◌, ◌++◌, ltb, if◌then◌else◌,
}

-- The decimal digits of a number, with fuel: 20 digits are enough for an int64.
unfoldable pub decimal_digits : ℕ → ℕ → Text
decimal_digits zero n = []
decimal_digits (suc fuel) n =
    let above = decimal_digits fuel (n / 10) in
    if ltb n 10 then (b'0' + n) ∷ [] else above ++ (b'0' + n % 10) ∷ []

-- `%d`
unfoldable pub decimal : ℤ → Text
unfolding decimal_digits
decimal (pos n) = decimal_digits 20 n
decimal (negsuc n) = b'-' ∷ decimal_digits 20 (suc n)

-- `%s|%d`
unfoldable pub body_text : Text → ℤ → Text
body_text to_username amount_paise = to_username ++ b'|' ∷ decimal amount_paise

abbrev pub hex_digit : ℕ → ℕ
hex_digit n = if ltb n 10 then b'0' + n else b'a' + n % 16 - 10

-- `hex.EncodeToString`
unfoldable pub encode_hex : Text → Text
encode_hex [] = []
encode_hex (b ∷ s) = hex_digit (b / 16) ∷ hex_digit (b % 16) ∷ encode_hex s

unfoldable pub hash_body : (Text → Text) → Text → ℤ → Text
hash_body sha256 to_username amount_paise = encode_hex (sha256 (body_text to_username amount_paise))
