-- ===== src/Encoding/Parts.antt =====
-- What the bytes of an encoded block are made of (core/encoding.go: MarshalBlock).
pub mod Renewal
use xe.Prelude.{
  ℕ, ◌<◌, ◌≡◌, refl, sym, ◌∙◌, ap, arith, String, Bool, true, false, not, ◌&&◌, List, [], ◌∷◌, ◌++◌,
  Option, some, none, Result, ok, err, ◌>>=◌, ◌>>◌, >>=-eq-ok, ok_injective, fail_if, some_or, ltb,
  length,
}
use xe.Prelude.Int.{bits_64}
use xe.Hex.{byte_length}
use xe.Bytes.{le, encode_hex, canonical_hex}
use xe.Bytes.Laws.{flat, flat-append}
use xe.Types.{Block, BlockType}
use xe.Memo.{validate_memo}
use xe.Store.{is_set}
use xe.Encoding.{
  version_byte, is_empty, has_memo, type_byte, hex_32, hex_32_or, pad_asset, be_64, tail_bytes,
  timing_part, memo_part, header_bytes, marshal_block_canonical, marshal_block,
}
use xe.Encoding.Decode.{hex_or}
use xe.Encoding.Texts.{canonical_or, hex_32-eq-ok, hex_32_or-eq-ok, some_or-eq-ok}

abbrev before_time : ℕ → Block → List ℕ → List ℕ → List (List ℕ)
before_time t b account previous =
    (version_byte ∷ t ∷ []) ∷ pad_asset b.asset ∷ account ∷ previous ∷ be_64 b.balance ∷ []

-- The 90 bytes before the fields of the type.
abbrev pub header_parts : ℕ → Block → List ℕ → List ℕ → List (List ℕ)
header_parts t b account previous =
    (version_byte ∷ t ∷ [])
    ∷ pad_asset b.asset
    ∷ account
    ∷ previous
    ∷ be_64 b.balance
    ∷ be_64 (bits_64 b.timestamp)
    ∷ []

-- The parts of the bytes of a block.
pub record IsCanonical (b : Block) (bytes : List ℕ) : Type 0 where
  pub t : ℕ
  pub account : List ℕ
  pub previous : List ℕ
  pub fields : List ℕ
  pub rep : List ℕ
  pub timing : List ℕ
  pub typed : type_byte b.type ≡ some t
  pub memo_allowed : not (is_empty b.memo) && not (has_memo b.type) ≡ false
  pub memo_valid : validate_memo b.memo ≡ ok tt
  pub asset_fits : ltb 8 (byte_length b.asset) ≡ false
  pub account_32 : length account ≡ 32
  pub account_text : encode_hex account ≡ canonical_hex b.account
  pub previous_32 : length previous ≡ 32
  pub previous_text : hex_or "0" previous ≡ canonical_or "0" b.previous
  pub tail : tail_bytes b b.type ≡ ok fields
  pub rep_32 : length rep ≡ 32
  pub rep_text : hex_or "" rep ≡ canonical_or "" b.representative
  pub timed : timing_part b ≡ ok timing
  pub glued :
      flat (header_parts t b account previous) (fields ++ (rep ++ (timing ++ memo_part b))) ≡ bytes

pub fail_if-eq-ok : (c : Bool) (e : String) {u : Unit {0}} → fail_if c e ≡ ok u → c ≡ false
fail_if-eq-ok false e h = refl
fail_if-eq-ok true e h = cc

marshal_block_canonical-parts :
    (b : Block) {bytes : List ℕ} → marshal_block_canonical b ≡ ok bytes → IsCanonical b bytes
unfolding marshal_block_canonical
marshal_block_canonical-parts b h₀ =
    let (t, k₁, h₁) =
      >>=-eq-ok (some_or (type_byte b.type) "MarshalBlock: unknown block type %q") _ h₀ in
    let (u₂, k₂, h₂) =
      >>=-eq-ok
        (fail_if (not (is_empty b.memo) && not (has_memo b.type))
          "MarshalBlock: memo not allowed on %s blocks")
        _ h₁ in
    let (u₃, k₃, h₃) = >>=-eq-ok (validate_memo b.memo) _ h₂ in
    let (u₄, k₄, h₄) =
      >>=-eq-ok
        (fail_if (ltb 8 (byte_length b.asset)) "MarshalBlock: asset too long: %d bytes (max %d)") _
        h₃ in
    let (account, k₅, h₅) =
      >>=-eq-ok
        (hex_32 b.account "MarshalBlock: invalid account hex: %w"
          "MarshalBlock: account must be 32 bytes, got %d")
        _ h₄ in
    let (previous, k₆, h₆) =
      >>=-eq-ok
        (hex_32_or "0" b.previous "MarshalBlock: invalid previous hex: %w"
          "MarshalBlock: previous must be 32 bytes, got %d")
        _ h₅ in
    let (fields, k₇, h₇) = >>=-eq-ok (tail_bytes b b.type) _ h₆ in
    let (rep, k₈, h₈) =
      >>=-eq-ok
        (hex_32_or "" b.representative "MarshalBlock: invalid representative hex: %w"
          "MarshalBlock: representative must be 32 bytes, got %d")
        _ h₇ in
    let (timing, k₉, h₉) = >>=-eq-ok (timing_part b) _ h₈ in
    let (account_32, account_text) = hex_32-eq-ok b.account _ _ k₅ in
    let (previous_32, previous_text) = hex_32_or-eq-ok "0" b.previous _ _ k₆ in
    let (rep_32, rep_text) = hex_32_or-eq-ok "" b.representative _ _ k₈ in
    record {
      t = t;
      account = account;
      previous = previous;
      fields = fields;
      rep = rep;
      timing = timing;
      typed = some_or-eq-ok (type_byte b.type) _ k₁;
      memo_allowed = fail_if-eq-ok _ _ k₂;
      memo_valid = k₃;
      asset_fits = fail_if-eq-ok _ _ k₄;
      account_32 = account_32;
      account_text = account_text;
      previous_32 = previous_32;
      previous_text = previous_text;
      tail = k₇;
      rep_32 = rep_32;
      rep_text = rep_text;
      timed = k₉;
      glued =
          sym (
            flat-append (before_time t b account previous) (be_64 (bits_64 b.timestamp))
              (fields ++ (rep ++ (timing ++ memo_part b))))
          ∙ ok_injective h₉;
    }

-- The bytes of a block are those parts and the nonce.
pub marshal_block-parts :
    (b : Block) {bytes : List ℕ}
    → marshal_block b ≡ ok bytes
    → (canonical : List ℕ) × IsCanonical b canonical × (canonical ++ le 8 b.pow_nonce ≡ bytes)
unfolding marshal_block
marshal_block-parts b h₀ =
    let (u₀, k₀, h₁) =
      >>=-eq-ok
        (fail_if (is_set b.pub_key)
          "MarshalBlock: the binary canonical encoding cannot represent a declared pub_key (it is bound into the hash via the aux input, not the canonical bytes) — use JSON, which is the wire and store format for blocks")
        _ h₀ in
    let (canonical, k₁, whole) =
      >>=-eq-ok (marshal_block_canonical b) (λ canonical. ok (canonical ++ le 8 b.pow_nonce)) h₁ in
    (canonical, marshal_block_canonical-parts b k₁, ok_injective whole)
