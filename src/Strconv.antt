-- ===== src/Strconv.antt =====
-- `strconv.ParseInt(s, 10, 64)`, which internal/config/config.go calls, and encoding/json for the
-- int64 fields of internal/dto/dto.go.
pub mod Printed
use wallet_service.Prelude.{
  ℕ, ◌+◌, ◌-◌, ◌*◌, ◌^◌, ℤ, pos, ◌-ℤ◌, Text, [], ◌∷◌, Bool, true, false, ◌&&◌, leb, ltb, ◌==◌,
  Option, none, some, if◌then◌else◌,
}

abbrev pub is_digit : ℕ → Bool
is_digit c = leb b'0' c && leb c b'9'

-- The number that a run of digits spells, after the digits that spell `acc`.
unfoldable pub digits : Text → ℕ → Option ℕ
digits [] acc = some acc
digits (c ∷ s) acc =
    let rest = digits s (acc * 10 + (c - b'0')) in if is_digit c then rest else none

abbrev pub to_int64 : Bool → ℕ → Option ℤ
to_int64 false n = if ltb n (2 ^ 63) then some (pos n) else none
to_int64 true n = if leb n (2 ^ 63) then some (pos 0 -ℤ pos n) else none

abbrev pub magnitude : Bool → Text → Option ℤ
magnitude neg [] = none
magnitude neg (c ∷ s) = elim (digits (c ∷ s) 0) [ none ↦ none | some n ↦ to_int64 neg n ]

-- `none` for a syntax error and for a value out of range.
unfoldable pub parse_int : Text → Option ℤ
parse_int [] = none
parse_int (c ∷ s) =
    if c == b'+'
    then magnitude false s
    else if c == b'-'
    then magnitude true s
    else magnitude false (c ∷ s)
