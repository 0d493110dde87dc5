-- ===== src/Transfer/Hash/Injective.antt =====
-- Different bodies have different texts before they are hashed.
use wallet_service.Prelude.{
  ℕ, zero, suc, ◌+◌, ◌-◌, ◌*◌, ◌/◌, ◌%◌, ◌^◌, ◌<◌, ℤ, pos, negsuc, ◌<ℤ◌, InRange, Text, [], ◌∷◌,
  ◌++◌, All, All-append, ltb, ◌≡◌, ◌≢◌, refl, sym, ap, ◌∙◌, Bool-cases, inl, inr, arith,
}
use wallet_service.Transfer.Hash.{
  decimal_digits, decimal, body_text, hex_digit, encode_hex, hash_body,
}

abbrev value_from : ℕ → Text → ℕ
value_from acc [] = acc
value_from acc (d ∷ s) = value_from (acc * 10 + (d - b'0')) s

value_from-append :
    (acc d : ℕ) (s : Text) → value_from acc (s ++ d ∷ []) ≡ value_from acc s * 10 + (d - b'0')
value_from-append acc d [] = refl
value_from-append acc d (c ∷ s) = value_from-append (acc * 10 + (c - b'0')) d s

-- Enough digits for the number give back the number.
value_from-decimal_digits : (fuel n : ℕ) → n < 10 ^ fuel → value_from 0 (decimal_digits fuel n) ≡ n
unfolding decimal_digits
value_from-decimal_digits zero n h = omega arith
value_from-decimal_digits (suc fuel) n h = elim (Bool-cases (ltb n 10)) [
  | inl small ↦ rw small (ground arith)
  | inr large ↦
      rw
        (
          large,
          value_from-append 0 (b'0' + n % 10) (decimal_digits fuel (n / 10)),
          value_from-decimal_digits fuel (n / 10) (omega arith),
        )
        (omega arith)
]

decimal_digits-no_bar : (fuel n : ℕ) → All (λ c. c ≢ b'|') (decimal_digits fuel n)
unfolding decimal_digits
decimal_digits-no_bar zero n = tt
decimal_digits-no_bar (suc fuel) n = elim (Bool-cases (ltb n 10)) [
  | inl small ↦ rw small (ground arith, tt)
  | inr large ↦ rw large (
      All-append _ (decimal_digits fuel (n / 10)) _ (decimal_digits-no_bar fuel (n / 10))
        (ground arith))
]

bar_within : (xs ys zs : Text) → zs ≡ xs ++ b'|' ∷ ys → All (λ c. c ≢ b'|') zs → ⊥
bar_within [] ys [] e h = cc
bar_within [] ys (c ∷ zs) e h = h.0 cc
bar_within (x ∷ xs) ys [] e h = cc
bar_within (x ∷ xs) ys (c ∷ zs) e h = bar_within xs ys zs (cc) h.1

-- A text is cut at its last bar in one way.
cut_at_bar :
    (xs xs' ys ys' : Text)
    → xs ++ b'|' ∷ ys ≡ xs' ++ b'|' ∷ ys'
    → All (λ c. c ≢ b'|') ys
    → All (λ c. c ≢ b'|') ys'
    → (xs ≡ xs') × (ys ≡ ys')
cut_at_bar [] [] ys ys' e h h' = (refl, cc)
cut_at_bar [] (x ∷ xs') ys ys' e h h' = absurd (bar_within xs' ys' ys (cc) h)
cut_at_bar (x ∷ xs) [] ys ys' e h h' = absurd (bar_within xs ys ys' (cc) h')
cut_at_bar (x ∷ xs) (x' ∷ xs') ys ys' e h h' =
    let (p, q) = cut_at_bar xs xs' ys ys' (cc) h h' in (cc, q)

-- Two bodies with amounts as `Execute` accepts them, positive int64s, that give SHA-256 the same
-- text have the same recipient and the same amount, whatever bytes the username holds.
body_text-injective :
    (u v : Text) (a b : ℤ)
    → (pos 0 <ℤ a) × InRange a
    → (pos 0 <ℤ b) × InRange b
    → body_text u a ≡ body_text v b
    → (u ≡ v) × (a ≡ b)
unfolding body_text decimal
body_text-injective u v (pos m) (pos n) h k e =
    let (p, q) = cut_at_bar u v _ _ e (decimal_digits-no_bar 20 m) (decimal_digits-no_bar 20 n) in
    let value = ap (value_from 0) q in
    (
      p,
      ap pos (
          sym (value_from-decimal_digits 20 m (omega arith))
          ∙ value
          ∙ value_from-decimal_digits 20 n (omega arith)),
    )
body_text-injective u v (negsuc m) b h k e = absurd (omega (arith, h))
body_text-injective u v (pos m) (negsuc n) h k e = absurd (omega (arith, k))

abbrev pub IsByte : ℕ → Type 0
IsByte b = b < 256

hex_digit-injective : (m n : ℕ) → m < 16 → n < 16 → hex_digit m ≡ hex_digit n → m ≡ n
hex_digit-injective m n h k e = ground arith

-- Two digits give back their byte.
encode_hex-injective :
    (s t : Text) → All IsByte s → All IsByte t → encode_hex s ≡ encode_hex t → s ≡ t
unfolding encode_hex
encode_hex-injective [] [] h k e = refl
encode_hex-injective [] (b ∷ t) h k e = cc
encode_hex-injective (a ∷ s) [] h k e = cc
encode_hex-injective (a ∷ s) (b ∷ t) h k e =
    let high = hex_digit-injective (a / 16) (b / 16) (omega (arith, h.0)) (omega (arith, k.0)) cc in
    let low = hex_digit-injective (a % 16) (b % 16) (omega arith) (omega arith) cc in
    let same : a ≡ b = omega (arith, high, low) in
    let rest = encode_hex-injective s t h.1 k.1 cc in cc

-- Two bodies with amounts as `Execute` accepts them, positive int64s, that get the same stored hash
-- have the same recipient and the same amount, whatever bytes the username holds, unless they are
-- a collision of SHA-256: its hash of the two texts is of bytes and tells these two texts apart.
pub hash_body-injective :
    (sha256 : Text → Text) (u v : Text) (a b : ℤ)
    → (pos 0 <ℤ a) × InRange a
    → (pos 0 <ℤ b) × InRange b
    → All IsByte (sha256 (body_text u a))
    → All IsByte (sha256 (body_text v b))
    → (sha256 (body_text u a) ≡ sha256 (body_text v b) → body_text u a ≡ body_text v b)
    → hash_body sha256 u a ≡ hash_body sha256 v b
    → (u ≡ v) × (a ≡ b)
unfolding hash_body
hash_body-injective sha256 u v a b h k x y apart e =
    body_text-injective u v a b h k (apart (encode_hex-injective _ _ x y e))
