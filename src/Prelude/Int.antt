-- ===== src/Prelude/Int.antt =====
-- Signed integers over the native numbers, and Go's int64, whose sums wrap round.
use Prim.Native.Nat.{ℕ, suc, ◌+◌, ◌-◌, ◌≤◌, ◌<◌, ◌%◌, ◌^◌}
use mathlib.Core.Path.{◌≡◌}
use mathlib.Core.Bool.{Bool, ◌&&◌}
use native.Mathlib.Omega.{arith}
use wallet_service.Prelude.Tests.{ltb, leb, if◌then◌else◌}

-- `negsuc n` is -(n + 1).
pub data ℤ : Type 0 where
  pos : ℕ → ℤ
  negsuc : ℕ → ℤ

abbrev pub pos_part : ℤ → ℕ
pos_part (pos n) = n
pos_part (negsuc n) = 0

abbrev pub neg_part : ℤ → ℕ
neg_part (pos n) = 0
neg_part (negsuc n) = suc n

-- a - b, as an integer.
abbrev pub sub_ℕ : ℕ → ℕ → ℤ
sub_ℕ a b = if leb b a then pos (a - b) else negsuc (b - a - 1)

infixl 65 ◌+ℤ◌ ◌-ℤ◌
infix 50 ◌≤ℤ◌ ◌<ℤ◌
unfoldable pub ◌+ℤ◌ : ℤ → ℤ → ℤ
a +ℤ b = sub_ℕ (pos_part a + pos_part b) (neg_part a + neg_part b)

unfoldable pub ◌-ℤ◌ : ℤ → ℤ → ℤ
a -ℤ b = sub_ℕ (pos_part a + neg_part b) (neg_part a + pos_part b)

abbrev pub ◌≤ℤ◌ : ℤ → ℤ → Type 0
a ≤ℤ b = pos_part a + neg_part b ≤ pos_part b + neg_part a

abbrev pub ◌<ℤ◌ : ℤ → ℤ → Type 0
a <ℤ b = pos_part a + neg_part b < pos_part b + neg_part a

abbrev pub ltb_ℤ : ℤ → ℤ → Bool
ltb_ℤ a b = ltb (pos_part a + neg_part b) (pos_part b + neg_part a)

abbrev pub leb_ℤ : ℤ → ℤ → Bool
leb_ℤ a b = leb (pos_part a + neg_part b) (pos_part b + neg_part a)

pub +ℤ_parts :
    (a b : ℤ)
    → pos_part (a +ℤ b) + neg_part a + neg_part b ≡ neg_part (a +ℤ b) + pos_part a + pos_part b
unfolding ◌+ℤ◌
+ℤ_parts a b = ground arith

pub -ℤ_parts :
    (a b : ℤ)
    → pos_part (a -ℤ b) + neg_part a + pos_part b ≡ neg_part (a -ℤ b) + pos_part a + neg_part b
unfolding ◌-ℤ◌
-ℤ_parts a b = ground arith

pub eq_of_parts : (a b : ℤ) → pos_part a + neg_part b ≡ pos_part b + neg_part a → a ≡ b
eq_of_parts a b h = ground arith

pub ruleset int_laws = (arith, +ℤ_parts, -ℤ_parts, eq_of_parts)

-- The values of int64, and of a BIGINT column.
abbrev pub InRange : ℤ → Type 0
InRange z = (z <ℤ pos (2 ^ 63)) × (negsuc (2 ^ 63 - 1) ≤ℤ z)

-- The residue of an integer modulo 2^64.
abbrev residue : ℤ → ℕ
residue (pos n) = n % 2 ^ 64
residue (negsuc n) = 2 ^ 64 - 1 - n % 2 ^ 64

abbrev signed : ℕ → ℤ
signed r = if ltb r (2 ^ 63) then pos r else negsuc (2 ^ 64 - 1 - r)

-- What is left of an integer in 64 bits of two's complement.
unfoldable pub wrap64 : ℤ → ℤ
wrap64 z = signed (residue z)

pub wrap64_of_InRange : (z : ℤ) → InRange z → wrap64 z ≡ z
unfolding wrap64
wrap64_of_InRange z h = ground arith

pub wrap64-InRange : (z : ℤ) → InRange (wrap64 z)
unfolding wrap64
wrap64-InRange z = ground arith

-- A sum of two non-negative values that passes the top of int64 comes out negative.
pub wrap64_overflow : (z : ℤ) → pos (2 ^ 63) ≤ℤ z → z <ℤ pos (2 ^ 64) → wrap64 z <ℤ pos 0
unfolding wrap64
wrap64_overflow z h k = ground arith

abbrev pub in_range : ℤ → Bool
in_range z = ltb_ℤ z (pos (2 ^ 63)) && leb_ℤ (negsuc (2 ^ 63 - 1)) z

-- A sum of two amounts that does not come out negative is exact, and a difference always is.
pub wrap64-add :
    (a b : ℤ)
    → (pos 0 ≤ℤ a) × InRange a
    → (pos 0 ≤ℤ b) × InRange b
    → pos 0 ≤ℤ wrap64 (a +ℤ b)
    → wrap64 (a +ℤ b) ≡ a +ℤ b
wrap64-add a b h k n = grind (int_laws, wrap64_of_InRange (a +ℤ b), wrap64_overflow (a +ℤ b))

pub wrap64-sub :
    (a b : ℤ) → (pos 0 ≤ℤ a) × InRange a → (pos 0 ≤ℤ b) × InRange b → wrap64 (a -ℤ b) ≡ a -ℤ b
wrap64-sub a b h k = wrap64_of_InRange (a -ℤ b) (omega int_laws)

-- An equation in the form that `omega` reads.
pub bounds_of_eq : {a b : ℤ} → a ≡ b → (a ≤ℤ b) × (b ≤ℤ a)
bounds_of_eq {a} {b} e = ground arith
