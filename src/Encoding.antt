-- ===== src/Encoding.antt =====
-- The canonical bytes of a block, which its hash is of (core/encoding.go: MarshalBlockCanonical,
-- MarshalBlock).
pub mod Covered
pub mod Decode
pub mod Fields
pub mod Hash
pub mod Header
pub mod Layout
pub mod Parts
pub mod RoundTrip
pub mod Texts
pub mod Vote
pub mod Wire
use Prim.Native.String.{compare}
use text.Mathlib.Text.{is_lt}
use xe.Prelude.{
  ℕ, ◌+◌, ◌-◌, ◌%◌, ◌^◌, String, Bool, true, false, not, ◌&&◌, ◌||◌, List, [], ◌∷◌, ◌++◌, Option,
  none, some, Result, ok, err, ◌>>=◌, ◌>>◌, require, fail_if, some_or, when_some, ltb, ◌==◌, str_eq,
  if◌then◌else◌, length,
}
use xe.Prelude.Int.{ℤ, pos, negsuc, bits_64}
use xe.Hex.{decode_hex, byte_length}
use xe.Bytes.{be, le, zeros, text_bytes, encode_hex, sort_texts}
use xe.Types.{Block, BlockType, Keyset, TimekeeperAttestation}
use xe.Memo.{validate_memo}
use xe.Store.{is_set}

abbrev pub version_byte : ℕ
version_byte = 2

unfoldable pub type_byte : BlockType → Option ℕ
type_byte BlockType.send = some 0x01
type_byte BlockType.receive = some 0x02
type_byte BlockType.lease = some 0x04
type_byte BlockType.lease_accept = some 0x05
type_byte BlockType.lease_settle = some 0x06
type_byte BlockType.genesis = some 0x07
type_byte BlockType.multisig_open = some 0x08
type_byte BlockType.multisig_update = some 0x09
type_byte BlockType.lease_cancel = some 0x0a
type_byte BlockType.burn = some 0x0b
type_byte BlockType.lease_force_settle = some 0x0c
type_byte BlockType.mint = some 0x0d
type_byte BlockType.lease_renew = some 0x0e
type_byte (BlockType.other name) = none

-- Only a send and a burn carry a memo, only a genesis its lease timing.
abbrev pub has_memo : BlockType → Bool
has_memo BlockType.send = true
has_memo BlockType.burn = true
has_memo _ = false

abbrev pub is_genesis : BlockType → Bool
is_genesis BlockType.genesis = true
is_genesis _ = false

abbrev pub is_empty : List ℕ → Bool
is_empty [] = true
is_empty (c ∷ rest) = false

-- 32 bytes in hex.
unfoldable pub hex_32 : String → String → String → Result (List ℕ)
hex_32 s invalid wrong_length = do
  bytes ← some_or (decode_hex s) invalid
  require (length bytes == 32) wrong_length
  ok bytes

-- The same, where the text `unset` stands for zeros.
unfoldable pub hex_32_or : String → String → String → String → Result (List ℕ)
unfolding hex_32
hex_32_or unset s invalid wrong_length =
    if str_eq s unset then ok (zeros 32) else hex_32 s invalid wrong_length

-- The asset in eight bytes, and the uint64 fields.
abbrev pub pad_asset : String → List ℕ
pad_asset s = text_bytes s ++ zeros (8 - byte_length s)

abbrev pub be_64 : ℕ → List ℕ
be_64 n = be 8 n

abbrev pub locked_bytes : Block → List ℕ
locked_bytes b = be_64 b.locked_r ++ be_64 b.locked_payout_cap ++ be_64 b.locked_twap

-- `uint32(threshold)` of an int.
abbrev uint32 : ℤ → ℕ
uint32 t = bits_64 t % 2 ^ 32

unfoldable pub key_bytes : List String → Result (List ℕ)
key_bytes [] = ok []
key_bytes (k ∷ rest) = do
  key ← hex_32 k "invalid key hex: %w" "key must be 32 bytes, got %d"
  later ← key_bytes rest
  ok (key ++ later)

unfoldable pub marshal_keyset_canonical : Option Keyset → Result (List ℕ)
marshal_keyset_canonical none = err "keyset is nil"
marshal_keyset_canonical (some ks) = do
  keys ← key_bytes (sort_texts ks.keys)
  ok (be 4 (uint32 ks.threshold) ++ be 4 (length ks.keys) ++ keys)

abbrev pub source_bytes : Block → Result (List ℕ)
source_bytes b =
    hex_32 b.source "MarshalBlock: invalid source hex: %w"
      "MarshalBlock: source must be 32 bytes, got %d"

abbrev pub destination_bytes : Block → Result (List ℕ)
destination_bytes b =
    hex_32 b.destination "MarshalBlock: invalid destination hex: %w"
      "MarshalBlock: destination must be 32 bytes, got %d"

-- The fields of a type.
unfoldable pub tail_bytes : Block → BlockType → Result (List ℕ)
unfolding marshal_keyset_canonical
tail_bytes b BlockType.send = do dest ← destination_bytes b; ok (dest ++ be_64 b.amount)
tail_bytes b BlockType.receive = source_bytes b
tail_bytes b BlockType.lease = do
  dest ← destination_bytes b
  ssh_key ←
      hex_32_or "" b.access_pub_key "MarshalBlock: invalid access_pub_key hex: %w"
        "MarshalBlock: access_pub_key must be 32 bytes, got %d"
  ok (
      dest
      ++ (be_64 b.amount
          ++ (be_64 b.vcpus
              ++ (be_64 b.memory_mb ++ (be_64 b.disk_gb ++ (be_64 b.duration ++ ssh_key))))))
tail_bytes b BlockType.genesis = ok []
tail_bytes b BlockType.multisig_open = marshal_keyset_canonical b.ms_keyset
tail_bytes b BlockType.multisig_update = marshal_keyset_canonical b.ms_keyset
tail_bytes b BlockType.lease_cancel = source_bytes b
tail_bytes b BlockType.lease_force_settle = source_bytes b
tail_bytes b BlockType.lease_settle = do source ← source_bytes b; ok (source ++ be_64 b.amount)
tail_bytes b BlockType.lease_accept = do
  source ← source_bytes b
  ok (
      source
      ++ (be_64 b.amount
          ++ (be_64 b.locked_r ++ (be_64 b.locked_payout_cap ++ be_64 b.locked_twap))))
tail_bytes b BlockType.lease_renew = do
  source ← source_bytes b
  ok (
      source
      ++ (be_64 b.amount
          ++ (be_64 b.duration
              ++ (be_64 b.locked_r ++ (be_64 b.locked_payout_cap ++ be_64 b.locked_twap)))))
tail_bytes b BlockType.burn = ok (be_64 b.amount)
tail_bytes b BlockType.mint = ok (be_64 b.amount)
tail_bytes b (BlockType.other name) = ok []

abbrev is_zero : ℤ → Bool
is_zero (pos n) = n == 0
is_zero (negsuc n) = false

unfoldable pub has_genesis_lease_timing : Block → Bool
has_genesis_lease_timing b =
    not (b.lease_min_duration_secs == 0)
    || not (is_zero b.lease_settle_grace_ns)
    || not (is_zero b.lease_force_settle_gap_ns)
    || not (is_zero b.lease_escrow_expiry_ns)
    || not (is_zero b.lease_archive_gap_ns)
    || not (is_zero b.max_attestation_skew_ns)

abbrev pub timing_bytes : Block → List ℕ
timing_bytes b =
    be_64 b.lease_min_duration_secs
    ++ (be_64 (bits_64 b.lease_settle_grace_ns)
        ++ (be_64 (bits_64 b.lease_force_settle_gap_ns)
            ++ (be_64 (bits_64 b.lease_escrow_expiry_ns)
                ++ (be_64 (bits_64 b.lease_archive_gap_ns)
                    ++ be_64 (bits_64 b.max_attestation_skew_ns)))))

unfoldable pub timing_part : Block → Result (List ℕ)
unfolding has_genesis_lease_timing
timing_part b =
    if has_genesis_lease_timing b
    then (do
      require (is_genesis b.type) "MarshalBlock: lease-timing fields not allowed on %s blocks"
      ok (timing_bytes b))
    else ok []

abbrev pub memo_part : Block → List ℕ
memo_part b = if has_memo b.type then (length b.memo % 256) ∷ b.memo else []

-- The first 90 bytes.
abbrev pub header_bytes : ℕ → Block → List ℕ → List ℕ → List ℕ
header_bytes t b account previous =
    version_byte
    ∷ t
    ∷ (pad_asset b.asset
        ++ (account ++ (previous ++ (be_64 b.balance ++ be_64 (bits_64 b.timestamp)))))

unfoldable pub marshal_block_canonical : Block → Result (List ℕ)
unfolding type_byte tail_bytes timing_part hex_32_or
marshal_block_canonical b = do
  t ← some_or (type_byte b.type) "MarshalBlock: unknown block type %q"
  fail_if (not (is_empty b.memo) && not (has_memo b.type))
      "MarshalBlock: memo not allowed on %s blocks"
  validate_memo b.memo
  fail_if (ltb 8 (byte_length b.asset)) "MarshalBlock: asset too long: %d bytes (max %d)"
  account ←
      hex_32 b.account "MarshalBlock: invalid account hex: %w"
        "MarshalBlock: account must be 32 bytes, got %d"
  previous ←
      hex_32_or "0" b.previous "MarshalBlock: invalid previous hex: %w"
        "MarshalBlock: previous must be 32 bytes, got %d"
  fields ← tail_bytes b b.type
  rep ←
      hex_32_or "" b.representative "MarshalBlock: invalid representative hex: %w"
        "MarshalBlock: representative must be 32 bytes, got %d"
  timing ← timing_part b
  ok (header_bytes t b account previous ++ (fields ++ (rep ++ (timing ++ memo_part b))))

unfoldable pub marshal_block : Block → Result (List ℕ)
marshal_block b = do
  fail_if (is_set b.pub_key)
      "MarshalBlock: the binary canonical encoding cannot represent a declared pub_key (it is bound into the hash via the aux input, not the canonical bytes) — use JSON, which is the wire and store format for blocks"
  canonical ← marshal_block_canonical b
  ok (canonical ++ le 8 b.pow_nonce)
