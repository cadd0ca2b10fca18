-- ===== src/Amount/Exact.antt =====
-- What ParseAmount returns (core/amount.go).
use xe.Prelude.{
  ℕ, ◌+◌, ◌*◌, ◌<◌, ◌≤◌, ap, ◌∙◌, subst, [], ◌∷◌, ◌≡◌, sym, arith, String, true, false, List, ok,
  >>=-eq-ok, ok_injective, fail_if, require, ltb, ◌==◌, length, ◌&&◌,
}
use xe.Word.{modulus, mul64, add_overflow64, add_u64}
use xe.Word.Product.{mul64_exact}
use xe.Encoding.Texts.{require-eq-ok}
use xe.Encoding.Parts.{fail_if-eq-ok}
use xe.Amount.{
  AssetConfig, decimal, whole_part, frac_part, split_dot, pad_right, parse_uint, frac_value,
  micro_units, parse_amount, check_sign, check_dot, all_digits, is_empty, amount_format,
  amount_overflow,
}

below : (n m : ℕ) → ltb n m ≡ true → n < m
below n m h = ground arith

at_most : (n m : ℕ) → ltb n m ≡ false → m ≤ n
at_most n m h = ground arith

parse_uint-eq-ok :
    (refusal : String) (s : List ℕ) {v : ℕ}
    → parse_uint refusal s ≡ ok v
    → (v ≡ decimal 0 s) × (v < modulus)
unfolding parse_uint
parse_uint-eq-ok refusal s {v} h =
    let (u, k, after) = >>=-eq-ok (fail_if (is_empty s) refusal) _ h in
    let (u', small, e) =
      >>=-eq-ok (require (ltb (decimal 0 s) modulus) refusal) (λ done. ok (decimal 0 s)) after in
    let same : decimal 0 s ≡ v = ok_injective e in
    (
      sym same,
      subst (λ n. n < modulus) same (below (decimal 0 s) modulus (require-eq-ok _ _ small)),
    )

frac_value-eq-ok : (s : List ℕ) {v : ℕ} → frac_value s ≡ ok v → (v ≡ decimal 0 s) × (v < modulus)
frac_value-eq-ok [] h =
    (sym (ok_injective h), subst (λ n. n < modulus) (ok_injective h) (omega arith))
frac_value-eq-ok (c ∷ rest) h = parse_uint-eq-ok amount_format (c ∷ rest) h

low_word : (a b : ℕ) → (mul64 a b).1 < modulus
unfolding mul64
low_word a b = omega arith

no_carry :
    (hi lo product frac : ℕ)
    → hi * modulus + lo ≡ product
    → (hi == 0) ≡ true
    → ltb (add_u64 lo frac) lo ≡ false
    → lo < modulus
    → frac < modulus
    → (add_u64 lo frac ≡ product + frac) × (add_u64 lo frac < modulus)
no_carry hi lo product frac exact zero_hi fits l f =
    let no_hi : hi ≡ 0 = ground arith in
    let kept : lo ≤ add_u64 lo frac = at_most (add_u64 lo frac) lo fits in
    let at_zero : 0 * modulus + lo ≡ product = sym (ap (λ n. n * modulus + lo) no_hi) ∙ exact in
    let low : lo ≡ product = omega arith in (omega arith, omega arith)

micro_units-eq-ok :
    (units whole frac : ℕ) {v : ℕ}
    → units < modulus
    → whole < modulus
    → frac < modulus
    → micro_units units whole frac ≡ ok v
    → (v ≡ whole * units + frac) × (v < modulus)
unfolding micro_units add_overflow64
micro_units-eq-ok units whole frac {v} u w f h =
    let hi = (mul64 whole units).0 in
    let lo = (mul64 whole units).1 in
    let (u₁, zero_hi, after) = >>=-eq-ok (require (hi == 0) amount_overflow) _ h in
    let (u₂, fits, e) =
      >>=-eq-ok (fail_if (ltb (add_u64 lo frac) lo) amount_overflow) (λ done. ok (add_u64 lo frac))
        after in
    let same : add_u64 lo frac ≡ v = ok_injective e in
    subst (λ n. (n ≡ whole * units + frac) × (n < modulus)) same
      (no_carry hi lo (whole * units) frac (mul64_exact whole units w u) (require-eq-ok _ _ zero_hi)
        (fail_if-eq-ok _ _ fits) (low_word whole units) f)

-- If ParseAmount accepts a text, for an asset whose units fit a uint64, the text is digits with at most one dot,
-- followed by at most the asset's decimals, and the amount is exactly the whole part times the units and
-- the fraction padded with zeros: nothing wraps, and it fits a uint64.
pub parse_amount_exact :
    (s : List ℕ) (asset : AssetConfig) {v : ℕ}
    → asset.units_per_token < modulus
    → parse_amount s asset ≡ ok v
    → (v
        ≡ decimal 0 (whole_part s) * asset.units_per_token
          + decimal 0 (pad_right asset.decimals (frac_part s)))
      × (v < modulus)
      × (all_digits (whole_part s) && all_digits (frac_part s) ≡ true)
      × (length (frac_part s) ≤ asset.decimals)
unfolding parse_amount
parse_amount_exact s asset units h₀ =
    let (u₁, k₁, h₁) = >>=-eq-ok (check_sign s) _ h₀ in
    let (u₂, k₂, h₂) = >>=-eq-ok (check_dot (split_dot s)) _ h₁ in
    let (u₃, k₃, h₃) =
      >>=-eq-ok (fail_if (ltb asset.decimals (length (frac_part s))) "%w: %s allows %d, got %d") _
        h₂ in
    let (u₄, k₄, h₄) =
      >>=-eq-ok (require (all_digits (whole_part s) && all_digits (frac_part s)) amount_format) _
        h₃ in
    let (whole, k₅, h₅) = >>=-eq-ok (parse_uint amount_overflow (whole_part s)) _ h₄ in
    let (frac, k₆, h₆) = >>=-eq-ok (frac_value (pad_right asset.decimals (frac_part s))) _ h₅ in
    let (whole_value, whole_small) = parse_uint-eq-ok amount_overflow (whole_part s) k₅ in
    let (frac_sum, frac_small) = frac_value-eq-ok (pad_right asset.decimals (frac_part s)) k₆ in
    let (value, small) =
      micro_units-eq-ok asset.units_per_token whole frac units whole_small frac_small h₆ in
    (
      value
          ∙ ap (λ n. n * asset.units_per_token + frac) whole_value
          ∙ ap (λ n. decimal 0 (whole_part s) * asset.units_per_token + n) frac_sum,
      small,
      require-eq-ok _ _ k₄,
      at_most asset.decimals (length (frac_part s)) (fail_if-eq-ok _ _ k₃),
    )
