-- ===== src/Encoding/RoundTrip.antt =====
-- A block is read back from its bytes (core/encoding.go: MarshalBlock, UnmarshalBlock).
use xe.Prelude.{
  ℕ, ◌+◌, ◌%◌, ◌≡◌, sym, ap, ◌∙◌, arith, true, false, List, [], ◌∷◌, ◌++◌, length, some, none, ok,
  when_some, Bool-cases, inl, inr, if◌then◌else◌,
}
use xe.Types.{Block, is_valid_asset}
use xe.Bytes.{le}
use xe.Bytes.Laws.{flat, flat-append}
use xe.Encoding.{has_memo, is_genesis, memo_part, marshal_block}
use xe.Encoding.Decode.{wire_type, unmarshal_typed, unmarshal_block, header_block, type_fields}
use xe.Encoding.Fields.{fields-Reads, Reads}
use xe.Encoding.Header.{valid-IsAsset, head_90, header_back, IsAsset}
use xe.Encoding.Layout.{plain_layout, memo_layout}
use xe.Encoding.Parts.{IsCanonical, marshal_block-parts, header_parts}
use xe.Encoding.Wire.{IsTyped, reads_back, wire_fields, wire_header, wire_form, fields_end, min_len}
use xe.Encoding.Covered.{
  wire_type_back, not_genesis, kept, memo_short, no_memo, no_timing, dispatched,
}

-- A block of a type that is read back, with its parts.
module _ (b : Block) (typed : IsTyped b) (asset_8 : IsAsset b.asset)
    (covered : reads_back b.type ≡ true) {canonical bytes : List ℕ}
    (parts : IsCanonical b canonical) (whole : canonical ++ le 8 b.pow_nonce ≡ bytes) where
  abbrev header : List (List ℕ)
  header = header_parts parts.t b parts.account parts.previous

  abbrev head : List ℕ
  head = flat header []

  late : is_genesis b.type ≡ false
  late = not_genesis b.type covered

  abbrev after : List ℕ
  after = parts.rep ++ (memo_part b ++ le 8 b.pow_nonce)

  glued : head ++ (parts.fields ++ after) ≡ bytes
  glued =
      flat-append header [] (parts.fields ++ after)
      ∙ ap (flat header)
          (sym (flat-append (parts.fields ∷ parts.rep ∷ []) (memo_part b) (le 8 b.pow_nonce)))
      ∙ sym (flat-append header (parts.fields ++ (parts.rep ++ memo_part b)) (le 8 b.pow_nonce))
      ∙ ap
          (λ t. flat header (parts.fields ++ (parts.rep ++ (t ++ memo_part b))) ++ le 8 b.pow_nonce)
          (sym (no_timing b late parts.timed))
      ∙ ap (λ c. c ++ le 8 b.pow_nonce) parts.glued
      ∙ whole

  header_read : header_block b.type bytes ≡ wire_header b
  header_read =
      ap (header_block b.type) (sym glued ∙ flat-append header [] (parts.fields ++ after))
      ∙ header_back b typed asset_8 parts.t parts.account parts.previous parts.account_32
          parts.previous_32 (parts.fields ++ after) parts.account_text parts.previous_text

  abbrev w : Block
  w = wire_fields b (wire_header b) b.type

  size : length head ≡ 90
  size =
      head_90 b typed asset_8 parts.t parts.account parts.previous parts.account_32
        parts.previous_32

  reads : Reads b typed (wire_header b) head size after b.type parts.fields
  reads =
      fields-Reads b typed (wire_header b) head size after b.type parts.fields covered parts.tail

  found :
      type_fields (header_block b.type bytes) bytes b.type
      ≡ ok (w, length head + length parts.fields)
  found =
      ap (λ d. type_fields d bytes b.type) header_read
      ∙ ap (λ c. type_fields (wire_header b) c b.type) (sym glued)
      ∙ reads.0
      ∙ ap (λ n. ok (w, n)) (sym reads.1)

  typed_back : wire_type parts.t ≡ some (b.type, min_len b.type)
  typed_back =
      ap (λ o. when_some o none wire_type) (sym parts.typed) ∙ wire_type_back b.type covered

  same_type : w.type ≡ b.type
  same_type = (kept b (wire_header b) b.type).0

  read_plain :
      has_memo b.type ≡ false → unmarshal_typed bytes (b.type, min_len b.type) ≡ ok (wire_form b)
  unfolding wire_form
  read_plain plain =
      let empty : memo_part b ≡ [] =
        ap (λ m. if m then (length b.memo % 256) ∷ b.memo else []) plain in
      let joined : flat (head ∷ parts.fields ∷ parts.rep ∷ []) (le 8 b.pow_nonce) ≡ bytes =
        ap (λ m. head ++ (parts.fields ++ (parts.rep ++ (m ++ le 8 b.pow_nonce)))) (sym empty)
        ∙ glued in
      let end : length head + length parts.fields + 32 ≡ min_len b.type =
        ap (λ n. n + 32) reads.1
        ∙ ap (λ m. fields_end b.type + (if m then 33 else 32)) (sym plain) in
      let memo_empty : w.memo ≡ b.memo =
        (kept b (wire_header b) b.type).1
        ∙ sym (no_memo b.memo (has_memo b.type) plain parts.memo_allowed) in
      plain_layout head parts.fields parts.rep w b.type b.pow_nonce typed.pow_nonce parts.rep_32
        (ap is_genesis same_type ∙ late) (min_len b.type) bytes joined found end
        (ap has_memo same_type ∙ plain)
      ∙ λ i. ok (record w {
        representative = parts.rep_text i;
        memo = memo_empty i;
        pow_nonce = b.pow_nonce;
      })

  read_noted :
      has_memo b.type ≡ true → unmarshal_typed bytes (b.type, min_len b.type) ≡ ok (wire_form b)
  unfolding wire_form
  read_noted noted =
      let short = memo_short b.memo parts.memo_valid in
      let count : length b.memo % 256 ≡ length b.memo = omega arith in
      let full : memo_part b ≡ length b.memo ∷ b.memo =
        ap (λ m. if m then (length b.memo % 256) ∷ b.memo else []) noted
        ∙ ap (λ n. n ∷ b.memo) count in
      let joined : flat (head ∷ parts.fields ∷ parts.rep ∷ (length b.memo ∷ []) ∷ b.memo ∷ [])
            (le 8 b.pow_nonce)
          ≡ bytes =
        ap (λ m. head ++ (parts.fields ++ (parts.rep ++ (m ++ le 8 b.pow_nonce)))) (sym full)
        ∙ glued in
      let end : length head + length parts.fields + 33 ≡ min_len b.type =
        ap (λ n. n + 33) reads.1
        ∙ ap (λ m. fields_end b.type + (if m then 33 else 32)) (sym noted) in
      memo_layout head parts.fields parts.rep w b.type b.pow_nonce typed.pow_nonce parts.rep_32
        (ap is_genesis same_type ∙ late) (min_len b.type) b.memo bytes joined found end
        (ap has_memo same_type ∙ noted) parts.memo_valid short
      ∙ λ i.
          ok
            (record w { representative = parts.rep_text i; memo = b.memo; pow_nonce = b.pow_nonce })

  read_whole : unmarshal_typed bytes (b.type, min_len b.type) ≡ ok (wire_form b)
  read_whole = elim (Bool-cases (has_memo b.type)) [
    | inl noted ↦ read_noted noted
    | inr plain ↦ read_plain plain
  ]

  block_back : unmarshal_block bytes ≡ ok (wire_form b)
  block_back =
      ap unmarshal_block (sym glued)
      ∙ dispatched parts.t _ typed_back
      ∙ ap (λ c. unmarshal_typed c (b.type, min_len b.type)) glued
      ∙ read_whole

-- A send, receive, burn, mint or lease block of any kind but a renewal, in an asset of the ledger,
-- that MarshalBlock encodes is read back by UnmarshalBlock: every field that its type keeps, with
-- hex in lower case and zeros as the text that stands for them, and its memo and nonce.
pub unmarshal-marshal_block :
    (b : Block) {bytes : List ℕ}
    → IsTyped b
    → is_valid_asset b.asset ≡ true
    → reads_back b.type ≡ true
    → marshal_block b ≡ ok bytes
    → unmarshal_block bytes ≡ ok (wire_form b)
unmarshal-marshal_block b typed valid covered h =
    let (canonical, parts, whole) = marshal_block-parts b h in
    block_back b typed (valid-IsAsset b.asset valid) covered parts whole
