-- ===== src/Strconv/Printed.antt =====
-- A number that `%d` printed is read back.
use wallet_service.Prelude.{
  ℕ, zero, suc, ◌+◌, ◌-◌, ◌*◌, ◌/◌, ◌%◌, ◌^◌, ◌<◌, ◌≤◌, ℤ, pos, negsuc, ◌-ℤ◌, InRange, Text, [],
  ◌∷◌, ◌++◌, Bool, true, false, ltb, ◌≡◌, refl, sym, ap, ◌∙◌, some, Bool-cases, inl, inr, arith,
}
use wallet_service.Transfer.Hash.{decimal_digits, decimal}
use wallet_service.Strconv.{is_digit, digits, magnitude, to_int64, parse_int}

digits-append :
    (s : Text) (acc n d : ℕ)
    → digits s acc ≡ some n
    → is_digit d ≡ true
    → digits (s ++ d ∷ []) acc ≡ some (n * 10 + (d - b'0'))
unfolding digits
digits-append [] acc n d h k = ground arith
digits-append (c ∷ s) acc n d h k = ground (arith, digits-append s (acc * 10 + (c - b'0')) n d)

digits-decimal_digits :
    (fuel n : ℕ) → n < 10 ^ suc fuel → digits (decimal_digits (suc fuel) n) 0 ≡ some n
unfolding decimal_digits digits
digits-decimal_digits zero n h = ground arith
digits-decimal_digits (suc fuel) n h = elim (Bool-cases (ltb n 10)) [
  | inl small ↦ rw small (ground arith)
  | inr large ↦ rw large (
      digits-append (decimal_digits (suc fuel) (n / 10)) 0 (n / 10) (b'0' + n % 10)
        (digits-decimal_digits fuel (n / 10) (omega arith)) (ground arith)
      ∙ ap some (omega arith))
]

-- What is printed starts with a digit.
decimal_digits-head :
    (fuel n : ℕ)
    → (c : ℕ) × (s : Text) × (decimal_digits (suc fuel) n ≡ c ∷ s) × (is_digit c ≡ true)
unfolding decimal_digits
decimal_digits-head zero n = elim (Bool-cases (ltb n 10)) [
  | inl small ↦ (b'0' + n, [], rw small refl, ground arith)
  | inr large ↦ (b'0' + n % 10, [], rw large refl, ground arith)
]
decimal_digits-head (suc fuel) n = elim (Bool-cases (ltb n 10)) [
  | inl small ↦ (b'0' + n, [], rw small refl, ground arith)
  | inr large ↦
      let (c, s, e, k) = decimal_digits-head fuel (n / 10) in
      (c, s ++ (b'0' + n % 10) ∷ [], rw (large, e) refl, k)
]

magnitude-some :
    (neg : Bool) (c : ℕ) (s : Text) (n : ℕ)
    → digits (c ∷ s) 0 ≡ some n
    → magnitude neg (c ∷ s) ≡ to_int64 neg n
magnitude-some neg c s n h = rw (magnitude, h) refl

magnitude-decimal_digits :
    (neg : Bool) (n : ℕ) → n < 10 ^ 20 → magnitude neg (decimal_digits 20 n) ≡ to_int64 neg n
magnitude-decimal_digits neg n h =
    let (c, s, e, k) = decimal_digits-head 19 n in
    ap (magnitude neg) e
    ∙ magnitude-some neg c s n (ap (λ t. digits t 0) (sym e) ∙ digits-decimal_digits 19 n h)

parse_int-unsigned :
    (c : ℕ) (s : Text) → is_digit c ≡ true → parse_int (c ∷ s) ≡ magnitude false (c ∷ s)
unfolding parse_int
parse_int-unsigned c s k = ground arith

parse_int-minus : (s : Text) → parse_int (b'-' ∷ s) ≡ magnitude true s
unfolding parse_int
parse_int-minus s = refl

to_int64-negative : (n : ℕ) → suc n ≤ 2 ^ 63 → to_int64 true (suc n) ≡ some (negsuc n)
unfolding ◌-ℤ◌
to_int64-negative n h = ground arith

-- Every int64 that is printed by `%d` is read back by `ParseInt`, in base 10 and 64 bits.
pub parse_int-decimal : (z : ℤ) → InRange z → parse_int (decimal z) ≡ some z
unfolding decimal
parse_int-decimal (pos n) h =
    let (c, s, e, k) = decimal_digits-head 19 n in
    ap parse_int e
    ∙ parse_int-unsigned c s k
    ∙ ap (magnitude false) (sym e)
    ∙ magnitude-decimal_digits false n (omega arith)
    ∙ ground arith
parse_int-decimal (negsuc n) h =
    parse_int-minus (decimal_digits 20 (suc n))
    ∙ magnitude-decimal_digits true (suc n) (omega arith)
    ∙ to_int64-negative n (omega arith)
