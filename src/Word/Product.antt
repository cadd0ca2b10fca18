-- ===== src/Word/Product.antt =====
-- The product by 32-bit halves (core/amount.go, mul64) is the exact 128-bit product.
use mathlib.Core.Path.{ap₂, ◌∙◌}
use xe.Prelude.{ℕ, ◌+◌, ◌-◌, ◌*◌, ◌/◌, ◌%◌, ◌^◌, ◌≤◌, ◌<◌, ◌≡◌, arith}
use xe.Word.{modulus, add_u64, mul64}

-- Two half words multiply to less than this.
half_product_lt : (x y : ℕ) → x < 2 ^ 32 → y < 2 ^ 32 → x * y ≤ (2 ^ 32 - 1) * (2 ^ 32 - 1)
half_product_lt x y hx hy = grind arith

-- The carries of the schoolbook product, with the four half products as numbers.
module _ (p q r s : ℕ) where
  abbrev limit : ℕ
  limit = (2 ^ 32 - 1) * (2 ^ 32 - 1)

  abbrev carry : ℕ
  carry = add_u64 r (p % modulus / 2 ^ 32)

  abbrev high : ℕ
  high = (s + carry / 2 ^ 32 + add_u64 (carry % 2 ^ 32) q / 2 ^ 32) % modulus

  abbrev total : ℕ
  total = s * modulus + (q + r) * 2 ^ 32 + p

  high_lem :
      p ≤ limit → q ≤ limit → r ≤ limit → s ≤ limit → high * modulus + total % modulus ≡ total
  high_lem hp hq hr hs = omega arith

product_of_halves :
    (x x' y y' : ℕ)
    → total (x' * y') (x' * y) (x * y') (x * y) ≡ (x * 2 ^ 32 + x') * (y * 2 ^ 32 + y')
product_of_halves x x' y y' = omega arith

-- A number by its halves.
halves : (a : ℕ) → a / 2 ^ 32 * 2 ^ 32 + a % 2 ^ 32 ≡ a
halves a = omega arith

product_halves :
    (a b : ℕ)
    → total
        (a % 2 ^ 32 * (b % 2 ^ 32))
        (a % 2 ^ 32 * (b / 2 ^ 32))
        (a / 2 ^ 32 * (b % 2 ^ 32))
        (a / 2 ^ 32 * (b / 2 ^ 32))
      ≡ a * b
product_halves a b =
    product_of_halves (a / 2 ^ 32) (a % 2 ^ 32) (b / 2 ^ 32) (b % 2 ^ 32)
    ∙ ap₂ ◌*◌ (halves a) (halves b)

-- The two words that `mul64` returns are the exact product of its two uint64 arguments.
pub mul64_exact :
    (a b : ℕ) → a < modulus → b < modulus → (mul64 a b).0 * modulus + (mul64 a b).1 ≡ a * b
unfolding mul64
mul64_exact a b ha hb = rw (← product_halves a b) (
    high_lem _ _ _ _ (half_product_lt _ _ (omega arith) (omega arith))
      (half_product_lt _ _ (omega arith) (omega arith))
      (half_product_lt _ _ (omega arith) (omega arith))
      (half_product_lt _ _ (omega arith) (omega arith)))
