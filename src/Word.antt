-- ===== src/Word.antt =====
-- Checked uint64 arithmetic: core/ledger.go (safeMul, safeAdd, ceilDiv), core/amount.go (mul64,
-- addOverflow64) and core/supply.go (sumU64, signedDelta). A uint64 is a number below `modulus`.
pub mod Laws
pub mod Product
use xe.Prelude.{
  ℕ, zero, suc, ◌+◌, ◌-◌, ◌*◌, ◌/◌, ◌%◌, ◌^◌, Bool, true, false, ◌||◌, Option, none, some, List, [],
  ◌∷◌, ltb, leb, ◌==◌, if◌then◌else◌,
}
use xe.Prelude.Int.{ℤ, pos, negsuc}

abbrev pub modulus : ℕ
modulus = 2 ^ 64

-- math.MaxUint64 and math.MaxInt64
abbrev pub max_uint64 : ℕ
max_uint64 = 2 ^ 64 - 1

abbrev pub max_int64 : ℕ
max_int64 = 2 ^ 63 - 1

-- `a + b` and `a - b` on uint64.
abbrev pub add_u64 : ℕ → ℕ → ℕ
add_u64 a b = (a + b) % modulus

abbrev pub sub_u64 : ℕ → ℕ → ℕ
sub_u64 a b = (a + modulus - b) % modulus

-- `none` is the result (0, false). `bits.Mul64` gives the two words of the exact product.
unfoldable pub safe_mul : ℕ → ℕ → Option ℕ
safe_mul a b =
    if a == 0 || b == 0
    then some 0
    else let hi = a * b / modulus in let lo = a * b % modulus in if hi == 0 then some lo else none

unfoldable pub safe_add : ℕ → ℕ → Option ℕ
safe_add a b = let sum = add_u64 a b in if ltb sum a then none else some sum

unfoldable pub ceil_div : ℕ → ℕ → ℕ
ceil_div a b = if a == 0 then 0 else (a - 1) / b + 1

-- The 128-bit product by 32-bit halves: the high and the low word.
unfoldable pub mul64 : ℕ → ℕ → ℕ × ℕ
mul64 a b =
    let a_lo = a % 2 ^ 32 in
    let a_hi = a / 2 ^ 32 in
    let b_lo = b % 2 ^ 32 in
    let b_hi = b / 2 ^ 32 in
    let w0 = a_lo * b_lo % modulus in
    let t = add_u64 (a_hi * b_lo) (w0 / 2 ^ 32) in
    let w1 = t % 2 ^ 32 in
    let w2 = t / 2 ^ 32 in
    let w1' = add_u64 w1 (a_lo * b_hi) in
    let hi = (a_hi * b_hi + w2 + w1' / 2 ^ 32) % modulus in let lo = a * b % modulus in (hi, lo)

unfoldable pub add_overflow64 : ℕ → ℕ → ℕ × Bool
add_overflow64 a b = let sum = add_u64 a b in (sum, ltb sum a)

-- The loop of `sumU64` from the running total: the sum, and whether `*overflow` was set.
unfoldable pub sum_u64_from : ℕ → List ℕ → ℕ × Bool
sum_u64_from total [] = (total, false)
sum_u64_from total (v ∷ vs) =
    let rest = sum_u64_from (add_u64 total v) vs in
    if ltb (add_u64 total v) total then (max_uint64, true) else rest

unfoldable pub sum_u64 : List ℕ → ℕ × Bool
unfolding sum_u64_from
sum_u64 vs = sum_u64_from 0 vs

unfoldable pub signed_delta : ℕ → ℕ → ℤ
signed_delta a b =
    if leb b a
    then (let d = a - b in if leb d max_int64 then pos d else pos max_int64)
    else (let d = b - a in if leb d max_int64 then negsuc (d - 1) else negsuc (2 ^ 63 - 1))
