-- ===== src/Word/Laws.antt =====
-- What the checked operations return, and that they refuse exactly the overflows.
use xe.Prelude.{
  ℕ, ◌+◌, ◌*◌, ◌^◌, ◌≤◌, ◌<◌, ◌≡◌, true, false, none, some, List, [], ◌∷◌, arith, ltb, All,
  if◌then◌else◌,
}
use xe.Prelude.Int.{pos, ◌-ℤ◌}
use xe.Word.{modulus, max_uint64, safe_mul, safe_add, add_u64, ceil_div, sum_u64_from, signed_delta}

-- `safeMul` returns the product exactly when it fits a uint64, and refuses it otherwise.
pub safe_mul_lem : (a b : ℕ) → safe_mul a b ≡ (if ltb (a * b) modulus then some (a * b) else none)
unfolding safe_mul
safe_mul_lem a b = grind arith

pub safe_add_lem :
    (a b : ℕ)
    → a < modulus
    → b < modulus
    → safe_add a b ≡ (if ltb (a + b) modulus then some (a + b) else none)
unfolding safe_add
safe_add_lem a b ha hb = ground arith

-- A quotient that is rounded up: the least number whose product with the divisor reaches `a`.
pub ceil_div_bounds : (a b : ℕ) → 0 < b → (a ≤ ceil_div a b * b) × (ceil_div a b * b < a + b)
unfolding ceil_div
ceil_div_bounds a b h = (grind arith, grind arith)

pub ceil_div_le : (a b : ℕ) → ceil_div a b ≤ a
unfolding ceil_div
ceil_div_le a b = grind arith

pub sum : List ℕ → ℕ
sum [] = 0
sum (v ∷ vs) = v + sum vs

-- From a running total that fits a uint64, over values that fit one, the loop of `sumU64`
-- returns the sum and no overflow exactly when the whole sum fits a uint64, and otherwise the
-- largest uint64 with the overflow set.
pub sum_u64_from_lem :
    (total : ℕ) (vs : List ℕ)
    → total < modulus
    → All (λ v. v < modulus) vs
    → sum_u64_from total vs
      ≡ (if ltb (total + sum vs) modulus then (total + sum vs, false) else (max_uint64, true))
unfolding sum_u64_from sum
sum_u64_from_lem total [] h hs = ground arith
sum_u64_from_lem total (v ∷ vs) h hs = ground (arith, sum_u64_from_lem (add_u64 total v) vs)

-- Below 2^63, `signedDelta` is the integer difference of its arguments.
pub signed_delta_lem : (a b : ℕ) → a < 2 ^ 63 → b < 2 ^ 63 → signed_delta a b ≡ pos a -ℤ pos b
unfolding signed_delta ◌-ℤ◌
signed_delta_lem a b ha hb = ground arith

pub safe_mul-some : (a b : ℕ) → a * b < modulus → safe_mul a b ≡ some (a * b)
safe_mul-some a b h = rw safe_mul_lem (ground arith)

pub safe_add-some : (a b : ℕ) → a + b < modulus → safe_add a b ≡ some (a + b)
safe_add-some a b h = rw (safe_add_lem a b (omega arith) (omega arith)) (ground arith)

pub mul_mono : (a b m : ℕ) → a ≤ b → a * m ≤ b * m
mul_mono a b m h = grind arith
