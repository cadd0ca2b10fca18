-- ===== src/Prelude/Int.antt =====
-- Signed integers over the native numbers, under the library's names (its ℤ stands on the unary ℕ),
-- and Go's int64: an integer whose sums wrap around.
use Prim.Native.Nat.{ℕ, suc, ◌+◌, ◌-◌, ◌^◌, ◌%◌, ◌≤◌, ◌<◌}
use mathlib.Core.Path.{◌≡◌}
use mathlib.Core.Bool.{Bool}
use native.Mathlib.Omega.{arith}
use xe.Prelude.Tests.{ltb, leb, if◌then◌else◌}

-- `negsuc n` is -(n + 1).
pub data ℤ : Type 0 where
  pos : ℕ → ℤ
  negsuc : ℕ → ℤ

abbrev pub pos_part : ℤ → ℕ
pos_part (pos n) = n
pos_part (negsuc n) = 0

abbrev pub neg_part : ℤ → ℕ
neg_part (pos n) = 0
neg_part (negsuc n) = suc n

-- a - b, as an integer.
abbrev pub sub_ℕ : ℕ → ℕ → ℤ
sub_ℕ a b = if leb b a then pos (a - b) else negsuc (b - a - 1)

infixl 65 ◌+ℤ◌ ◌-ℤ◌
infix 50 ◌≤ℤ◌
unfoldable pub ◌+ℤ◌ : ℤ → ℤ → ℤ
a +ℤ b = sub_ℕ (pos_part a + pos_part b) (neg_part a + neg_part b)

unfoldable pub ◌-ℤ◌ : ℤ → ℤ → ℤ
a -ℤ b = sub_ℕ (pos_part a + neg_part b) (neg_part a + pos_part b)

abbrev pub ◌≤ℤ◌ : ℤ → ℤ → Type 0
a ≤ℤ b = pos_part a + neg_part b ≤ pos_part b + neg_part a

abbrev pub ltb_ℤ : ℤ → ℤ → Bool
ltb_ℤ a b = ltb (pos_part a + neg_part b) (pos_part b + neg_part a)

-- The 64 bits of an integer, as an unsigned word.
abbrev pub bits_64 : ℤ → ℕ
bits_64 (pos n) = n % 2 ^ 64
bits_64 (negsuc n) = 2 ^ 64 - 1 - n % 2 ^ 64

-- The int64 with these bits.
abbrev pub int_64 : ℕ → ℤ
int_64 n = if ltb n (2 ^ 63) then pos n else negsuc (2 ^ 64 - 1 - n)

-- `a + b` on int64.
unfoldable pub add_64 : ℤ → ℤ → ℤ
add_64 a b = int_64 ((bits_64 a + bits_64 b) % 2 ^ 64)

-- The values of int64.
abbrev pub Int64 : ℤ → Type 0
Int64 a = (pos_part a < 2 ^ 63) × (neg_part a ≤ 2 ^ 63)

pub +ℤ_parts :
    (a b : ℤ)
    → pos_part (a +ℤ b) + neg_part a + neg_part b ≡ neg_part (a +ℤ b) + pos_part a + pos_part b
unfolding ◌+ℤ◌
+ℤ_parts a b = ground arith

pub -ℤ_parts :
    (a b : ℤ)
    → pos_part (a -ℤ b) + neg_part a + pos_part b ≡ neg_part (a -ℤ b) + pos_part a + neg_part b
unfolding ◌-ℤ◌
-ℤ_parts a b = ground arith

pub eq_of_parts : (a b : ℤ) → pos_part a + neg_part b ≡ pos_part b + neg_part a → a ≡ b
eq_of_parts a b h = ground arith

pub ruleset int_laws = (arith, +ℤ_parts, -ℤ_parts, eq_of_parts)

-- Within the range of int64 the wrapped sum is the sum.
pub add_64-eq-+ℤ : (a b : ℤ) → Int64 a → Int64 b → Int64 (a +ℤ b) → add_64 a b ≡ a +ℤ b
unfolding add_64 ◌+ℤ◌
add_64-eq-+ℤ a b ha hb hs = ground arith

-- `a - b` and `-a` on int64.
unfoldable pub sub_64 : ℤ → ℤ → ℤ
sub_64 a b = int_64 ((bits_64 a + 2 ^ 64 - bits_64 b) % 2 ^ 64)

unfoldable pub neg_64 : ℤ → ℤ
neg_64 a = int_64 ((2 ^ 64 - bits_64 a) % 2 ^ 64)
