-- ===== src/Amount.antt =====
-- Amounts as decimal texts (core/amount.go: AssetByName, ParseAmount, FormatAmount,
-- FormatAmountFixed, allDigits). A text is its bytes; strconv.ParseUint and strconv.FormatUint are
-- spelled out in base 10.
pub mod Exact
use xe.Prelude.{
  ℕ, zero, suc, ◌+◌, ◌-◌, ◌*◌, ◌/◌, ◌%◌, String, Bool, true, false, not, ◌&&◌, Option, none, some,
  List, [], ◌∷◌, ◌++◌, Result, ok, err, ◌>>=◌, ◌>>◌, require, fail_if, when_some, ltb, leb, ◌==◌,
  str_eq, if◌then◌else◌, length,
}
use xe.Word.{modulus, mul64, add_overflow64}

pub record AssetConfig : Type 0 where
  pub symbol : String
  pub decimals : ℕ
  pub units_per_token : ℕ

abbrev pub asset_xe : AssetConfig
asset_xe = record { symbol = "XE"; decimals = 6; units_per_token = 1_000_000 }

abbrev pub asset_xusd : AssetConfig
asset_xusd = record { symbol = "XUSD"; decimals = 6; units_per_token = 1_000_000 }

unfoldable pub asset_by_name : String → Option AssetConfig
asset_by_name symbol =
    if str_eq symbol "XE"
    then some asset_xe
    else if str_eq symbol "XUSD"
    then some asset_xusd
    else none

unfoldable pub all_digits : List ℕ → Bool
all_digits [] = true
all_digits (c ∷ rest) = leb b'0' c && leb c b'9' && all_digits rest

-- The number that digits stand for, after the number so far.
abbrev pub decimal : ℕ → List ℕ → ℕ
decimal acc [] = acc
decimal acc (c ∷ rest) = decimal (acc * 10 + (c - b'0')) rest

abbrev pub is_empty : List ℕ → Bool
is_empty [] = true
is_empty (c ∷ rest) = false

-- `strconv.ParseUint(s, 10, 64)` of digits, with the error that the caller gives.
unfoldable pub parse_uint : String → List ℕ → Result ℕ
parse_uint refusal s = do
  fail_if (is_empty s) refusal
  require (ltb (decimal 0 s) modulus) refusal
  ok (decimal 0 s)

-- The text before the first dot and the text after it.
unfoldable pub split_dot : List ℕ → Option (List ℕ × List ℕ)
split_dot [] = none
split_dot (c ∷ rest) =
    if c == b'.'
    then some ([], rest)
    else when_some (split_dot rest) none (λ (whole, frac). some (c ∷ whole, frac))

abbrev pub whole_part : List ℕ → List ℕ
whole_part s = when_some (split_dot s) s (λ p. p.0)

abbrev pub frac_part : List ℕ → List ℕ
frac_part s = when_some (split_dot s) [] (λ p. p.1)

unfoldable pub digit_zeros : ℕ → List ℕ
digit_zeros zero = []
digit_zeros (suc n) = b'0' ∷ digit_zeros n

abbrev pub pad_right : ℕ → List ℕ → List ℕ
pad_right n s = s ++ digit_zeros (n - length s)

abbrev pub amount_format : String
amount_format = "amount must be a non-negative decimal"

abbrev pub amount_overflow : String
amount_overflow = "amount overflows uint64 micro-units"

-- The first byte: a text is not empty and has no sign.
abbrev pub check_sign : List ℕ → Result (Unit {0})
check_sign [] = err amount_format
check_sign (c ∷ rest) =
    if c == b'-'
    then err "amount must be non-negative"
    else if c == b'+'
    then err amount_format
    else ok tt

-- Where there is a dot, something stands on both sides of it.
abbrev pub check_dot : Option (List ℕ × List ℕ) → Result (Unit {0})
check_dot none = ok tt
check_dot (some (whole, frac)) = do
  fail_if (is_empty whole) amount_format
  fail_if (is_empty frac) amount_format

-- The padded digits of the fraction, where there are any.
abbrev pub frac_value : List ℕ → Result ℕ
frac_value frac = if is_empty frac then ok 0 else parse_uint amount_format frac

-- The value in micro-units, on uint64.
unfoldable pub micro_units : ℕ → ℕ → ℕ → Result ℕ
micro_units units whole frac = do
  require ((mul64 whole units).0 == 0) amount_overflow
  fail_if (add_overflow64 (mul64 whole units).1 frac).1 amount_overflow
  ok (add_overflow64 (mul64 whole units).1 frac).0

unfoldable pub parse_amount : List ℕ → AssetConfig → Result ℕ
parse_amount s asset = do
  check_sign s
  check_dot (split_dot s)
  fail_if (ltb asset.decimals (length (frac_part s))) "%w: %s allows %d, got %d"
  require (all_digits (whole_part s) && all_digits (frac_part s)) amount_format
  whole ← parse_uint amount_overflow (whole_part s)
  frac ← frac_value (pad_right asset.decimals (frac_part s))
  micro_units asset.units_per_token whole frac

-- `strconv.FormatUint(n, 10)`; `n` more steps are enough for `n`.
unfoldable pub digits : ℕ → ℕ → List ℕ
digits zero n = []
digits (suc steps) n = elim (ltb n 10) [
  | true ↦ (b'0' + n) ∷ []
  | false ↦ digits steps (n / 10) ++ (b'0' + n % 10) ∷ []
]

abbrev pub format_uint : ℕ → List ℕ
format_uint n = digits (suc n) n

abbrev pub pad_left : ℕ → List ℕ → List ℕ
pad_left n s = digit_zeros (n - length s) ++ s

-- `strings.TrimRight(s, "0")`
unfoldable pub trim_digits : List ℕ → List ℕ
trim_digits [] = []
trim_digits (c ∷ rest) =
    let rest' = trim_digits rest in if is_empty rest' && (c == b'0') then [] else c ∷ rest'

unfoldable pub format_amount : ℕ → AssetConfig → List ℕ
format_amount micro asset =
    let whole = format_uint (micro / asset.units_per_token) in
    let frac = micro % asset.units_per_token in
    if frac == 0
    then whole
    else whole ++ b'.' ∷ trim_digits (pad_left asset.decimals (format_uint frac))

unfoldable pub format_amount_fixed : ℕ → AssetConfig → List ℕ
format_amount_fixed micro asset =
    format_uint (micro / asset.units_per_token)
    ++ b'.' ∷ pad_left asset.decimals (format_uint (micro % asset.units_per_token))
