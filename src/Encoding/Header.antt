-- ===== src/Encoding/Header.antt =====
-- The first 90 bytes of a block are read back (core/encoding.go: MarshalBlockCanonical,
-- unmarshalBlock).
use xe.Prelude.{
  ℕ, ◌≡◌, refl, sym, ap, ◌∙◌, subst, arith, String, true, ◌||◌, List, [], ◌∷◌, ◌++◌, length, str_eq,
  eq_iff, Bool-cases, inl, inr,
}
use xe.Prelude.Int.{ℤ, Int64, bits_64}
use xe.Hex.{byte_length}
use xe.Types.{Block, is_valid_asset}
use xe.Bytes.{encode_hex, canonical_hex, zeros, all_zero, text_bytes, ascii_text, trim_zeros}
use xe.Bytes.Laws.{
  flat, total, slice-part, length-be, be_value-be, bound-Fits, bits_back, bits_small, length-flat,
}
use xe.Encoding.{be_64, pad_asset}
use xe.Encoding.Decode.{header_block, hex_or, i64_at}
use xe.Encoding.Fields.{u64_at-part, hex_at-part}
use xe.Encoding.Parts.{header_parts}
use xe.Encoding.Texts.{canonical_or}
use xe.Encoding.Wire.{IsTyped, wire_header}

abbrev pub IsAsset : String → Type 0
IsAsset asset = (length (pad_asset asset) ≡ 8) × (ascii_text (trim_zeros (pad_asset asset)) ≡ asset)

-- An asset of the ledger fills the eight bytes and is read back.
pub valid-IsAsset : (asset : String) → is_valid_asset asset ≡ true → IsAsset asset
unfolding is_valid_asset text_bytes zeros all_zero byte_length ascii_text trim_zeros
valid-IsAsset asset h = elim (Bool-cases (str_eq asset "XE")) [
  | inl e ↦ subst IsAsset (sym ((eq_iff asset "XE").0 e)) (refl, refl)
  | inr e ↦
      (let xusd : str_eq asset "XUSD" ≡ true = ap (λ c. c || str_eq asset "XUSD") (sym e) ∙ h in
        subst IsAsset (sym ((eq_iff asset "XUSD").0 xusd)) (refl, refl))
]

i64_at-part :
    (m : ℕ) (t : ℤ) (before : List (List ℕ)) (after : List ℕ)
    → Int64 t
    → m ≡ total before
    → i64_at m (flat before (be_64 (bits_64 t) ++ after)) ≡ t
unfolding i64_at
i64_at-part m t before after small h =
    rw
      (
        slice-part m 8 before (be_64 (bits_64 t)) after h (length-be 8 (bits_64 t)),
        be_value-be 8 (bits_64 t) (bound-Fits (bits_64 t) (bits_small t)),
      )
      (bits_back t small)

module _ (b : Block) (typed : IsTyped b) (asset_8 : IsAsset b.asset) (t : ℕ)
    (account previous : List ℕ) (account_32 : length account ≡ 32)
    (previous_32 : length previous ≡ 32) where
  pub head_90 : length (flat (header_parts t b account previous) []) ≡ 90
  head_90 = omega (
    arith,
    asset_8.0,
    length-flat (header_parts t b account previous) [],
    length-be 8 b.balance,
    length-be 8 (bits_64 b.timestamp),
  )

  pub header_back :
      (rest : List ℕ)
      → encode_hex account ≡ canonical_hex b.account
      → hex_or "0" previous ≡ canonical_or "0" b.previous
      → header_block b.type (flat (header_parts t b account previous) rest) ≡ wire_header b
  unfolding header_block
  header_back rest account_text previous_text =
      let version = 2 ∷ t ∷ [] in
      let asset = pad_asset b.asset in
      let balance = be_64 b.balance in
      let asset_size = asset_8.0 in
      let balance_8 = length-be 8 b.balance in
      rw
        (
          hex_at-part 10 (version ∷ asset ∷ []) account _ account_32 account_text (omega arith),
          slice-part 42 32 (version ∷ asset ∷ account ∷ []) previous _ (omega arith) previous_32,
          previous_text,
          u64_at-part 74 b.balance (version ∷ asset ∷ account ∷ previous ∷ []) _ typed.balance
              (omega arith),
          i64_at-part 82 b.timestamp (version ∷ asset ∷ account ∷ previous ∷ balance ∷ []) _
              typed.timestamp (omega arith),
          slice-part 2 8 (version ∷ []) asset _ (omega arith) asset_size,
          asset_8.1,
        )
        refl
