-- ===== src/Tests/Amounts.antt =====
-- 1.5 XE, as a text and in micro-units.
use xe.Prelude.{ℕ, ◌+◌, ◌*◌, ◌<◌, ◌≤◌, ◌≡◌, refl, arith, true, ◌&&◌, List, [], ◌∷◌, ok, err, length}
use xe.Word.{modulus, mul64, add_overflow64}
use xe.Amount.{
  parse_amount, format_amount, format_amount_fixed, asset_xe, whole_part, frac_part, pad_right,
  decimal, all_digits, parse_uint, split_dot, micro_units, digit_zeros, digits, trim_digits,
}
use xe.Amount.Exact.{parse_amount_exact}

abbrev text : List ℕ
text = b'1' ∷ b'.' ∷ b'5' ∷ []

parsed : parse_amount text asset_xe ≡ ok 1_500_000
unfolding parse_amount split_dot all_digits parse_uint digit_zeros micro_units mul64 add_overflow64
parsed = refl

formatted : format_amount 1_500_000 asset_xe ≡ text
unfolding format_amount digits trim_digits digit_zeros
formatted = refl

too_precise :
    parse_amount (b'0' ∷ b'.' ∷ b'1' ∷ b'1' ∷ b'1' ∷ b'1' ∷ b'1' ∷ b'1' ∷ b'1' ∷ []) asset_xe
    ≡ err "%w: %s allows %d, got %d"
unfolding parse_amount split_dot
too_precise = refl

fixed :
    format_amount_fixed 1_000_000 asset_xe
    ≡ b'1' ∷ b'.' ∷ b'0' ∷ b'0' ∷ b'0' ∷ b'0' ∷ b'0' ∷ b'0' ∷ []
unfolding format_amount_fixed digits digit_zeros
fixed = refl

parse_amount_exact_example :
    (1_500_000 ≡ decimal 0 (whole_part text) * 1_000_000 + decimal 0 (pad_right 6 (frac_part text)))
    × (1_500_000 < modulus)
    × (all_digits (whole_part text) && all_digits (frac_part text) ≡ true)
    × (length (frac_part text) ≤ 6)
parse_amount_exact_example = parse_amount_exact text asset_xe (omega arith) parsed
