-- ===== src/Encoding/Layout.antt =====
-- What UnmarshalBlock reads after the fields of a type (core/encoding.go: unmarshalBlock).
use xe.Prelude.{
  ℕ, ◌+◌, ◌<◌, ◌≤◌, ◌≡◌, refl, sym, ap, ◌∙◌, arith, true, false, List, [], ◌∷◌, ok, length, ltb,
  ◌==◌,
}
use xe.Word.{modulus}
use xe.Types.{Block, BlockType}
use xe.Memo.{validate_memo, max_memo_bytes}
use xe.Bytes.{le, slice, drop, byte_at}
use xe.Bytes.Laws.{
  le_value-le, bound-Fits, length-le, flat, length-flat, slice-part, byte_at-part, drop-flat,
}
use xe.Encoding.{has_memo, is_genesis}
use xe.Encoding.Decode.{header_block, type_fields, unmarshal_typed, hex_or}

short_false : (n m : ℕ) → m ≤ n → ltb n m ≡ false
short_false n m h = ground arith

module _ (head fields rep : List ℕ) (w : Block) (type : BlockType) (nonce : ℕ)
    (small : nonce < modulus) (rep_32 : length rep ≡ 32) (late : is_genesis w.type ≡ false) where
  -- Without a memo, the representative and the nonce follow.
  pub plain_layout :
      (min_len : ℕ) (bytes : List ℕ)
      → flat (head ∷ fields ∷ rep ∷ []) (le 8 nonce) ≡ bytes
      → type_fields (header_block type bytes) bytes type ≡ ok (w, length head + length fields)
      → length head + length fields + 32 ≡ min_len
      → has_memo w.type ≡ false
      → unmarshal_typed bytes (type, min_len)
        ≡ ok (record w { representative = hex_or "" rep; pow_nonce = nonce })
  unfolding unmarshal_typed
  plain_layout min_len bytes glued found end plain =
      let size : length bytes ≡ min_len + 8 =
        ap length (sym glued)
        ∙ omega (arith, length-flat (head ∷ fields ∷ rep ∷ []) (le 8 nonce), length-le 8 nonce) in
      let at_rep : slice (length head + length fields) 32 bytes ≡ rep =
        ap (slice (length head + length fields) 32) (sym glued)
        ∙ slice-part (length head + length fields) 32 (head ∷ fields ∷ []) rep (le 8 nonce)
            (omega arith) rep_32 in
      let at_nonce : drop min_len bytes ≡ le 8 nonce =
        ap (drop min_len) (sym glued)
        ∙ drop-flat min_len (head ∷ fields ∷ rep ∷ []) (le 8 nonce) (omega arith) in
      let not_short : ltb (length bytes) min_len ≡ false =
        short_false (length bytes) min_len (omega arith) in
      let exact : (length bytes == min_len + 8) ≡ true = ground arith in
      rw
        (
          not_short,
          found,
          at_rep,
          late,
          plain,
          exact,
          at_nonce,
          le_value-le 8 nonce (bound-Fits nonce small),
        )
        refl

  -- With one, its length and its bytes stand between them.
  pub memo_layout :
      (min_len : ℕ) (memo bytes : List ℕ)
      → flat (head ∷ fields ∷ rep ∷ (length memo ∷ []) ∷ memo ∷ []) (le 8 nonce) ≡ bytes
      → type_fields (header_block type bytes) bytes type ≡ ok (w, length head + length fields)
      → length head + length fields + 33 ≡ min_len
      → has_memo w.type ≡ true
      → validate_memo memo ≡ ok tt
      → length memo ≤ max_memo_bytes
      → unmarshal_typed bytes (type, min_len)
        ≡ ok (record w { representative = hex_or "" rep; memo = memo; pow_nonce = nonce })
  unfolding unmarshal_typed
  memo_layout min_len memo bytes glued found end noted valid bounded =
      let before = head ∷ fields ∷ rep ∷ (length memo ∷ []) ∷ memo ∷ [] in
      let offset = length head + length fields in
      let size : length bytes ≡ min_len + length memo + 8 =
        ap length (sym glued) ∙ omega (arith, length-flat before (le 8 nonce), length-le 8 nonce) in
      let at_rep : slice offset 32 bytes ≡ rep =
        ap (slice offset 32) (sym glued)
        ∙ slice-part offset 32 (head ∷ fields ∷ []) rep _ (omega arith) rep_32 in
      let at_count : byte_at (offset + 32) bytes ≡ length memo =
        ap (byte_at (offset + 32)) (sym glued)
        ∙ byte_at-part (offset + 32) (head ∷ fields ∷ rep ∷ []) (length memo) _ (omega arith) in
      let at_memo : slice min_len (length memo) bytes ≡ memo =
        ap (slice min_len (length memo)) (sym glued)
        ∙ slice-part min_len (length memo) (head ∷ fields ∷ rep ∷ (length memo ∷ []) ∷ []) memo _
            (omega arith) refl in
      let at_nonce : drop (min_len + length memo) bytes ≡ le 8 nonce =
        ap (drop (min_len + length memo)) (sym glued)
        ∙ drop-flat (min_len + length memo) before (le 8 nonce) (omega arith) in
      let not_short : ltb (length bytes) min_len ≡ false =
        short_false (length bytes) min_len (omega arith) in
      let holds_memo : ltb (length bytes) (min_len + length memo) ≡ false =
        short_false (length bytes) (min_len + length memo) (omega arith) in
      let allowed : ltb max_memo_bytes (length memo) ≡ false =
        short_false max_memo_bytes (length memo) bounded in
      let exact : (length bytes == min_len + length memo + 8) ≡ true = ground arith in
      rw
        (
          not_short,
          found,
          at_rep,
          late,
          noted,
          at_count,
          at_memo,
          allowed,
          holds_memo,
          valid,
          exact,
          at_nonce,
          le_value-le 8 nonce (bound-Fits nonce small),
        )
        refl
