-- ===== src/Encoding/Decode.antt =====
-- A block from its bytes (core/encoding.go: UnmarshalBlock, unmarshalBlock,
-- unmarshalKeysetCanonical).
use xe.Prelude.{
  ℕ, zero, suc, ◌+◌, ◌*◌, String, not, ◌&&◌, ◌||◌, List, [], ◌∷◌, Option, none, some, Result, ok,
  ◌>>=◌, ◌>>◌, require, fail_if, some_or, ltb, leb, ◌==◌, if◌then◌else◌, length,
}
use xe.Prelude.Int.{ℤ, pos, int_64}
use xe.Bytes.{
  be_value, le_value, drop, slice, byte_at, all_zero, ascii_text, trim_zeros, encode_hex,
}
use xe.Types.{Block, BlockType, Keyset}
use xe.Memo.{validate_memo, max_memo_bytes}
use xe.Encoding.{version_byte, has_memo, is_genesis}

-- The type of a type byte, and the least length of its blocks.
unfoldable pub wire_type : ℕ → Option (BlockType × ℕ)
wire_type n =
    if n == 0x01
    then some (BlockType.send, 163)
    else if n == 0x02
    then some (BlockType.receive, 154)
    else if n == 0x07
    then some (BlockType.genesis, 122)
    else if n == 0x08
    then some (BlockType.multisig_open, 130)
    else if n == 0x09
    then some (BlockType.multisig_update, 130)
    else if n == 0x04
    then some (BlockType.lease, 226)
    else if n == 0x05
    then some (BlockType.lease_accept, 186)
    else if n == 0x06
    then some (BlockType.lease_settle, 162)
    else if n == 0x0a
    then some (BlockType.lease_cancel, 154)
    else if n == 0x0c
    then some (BlockType.lease_force_settle, 154)
    else if n == 0x0b
    then some (BlockType.burn, 131)
    else if n == 0x0d
    then some (BlockType.mint, 130)
    else none

unfoldable pub u64_at : ℕ → List ℕ → ℕ
u64_at off bytes = be_value 0 (slice off 8 bytes)

unfoldable pub i64_at : ℕ → List ℕ → ℤ
i64_at off bytes = int_64 (be_value 0 (slice off 8 bytes))

unfoldable pub hex_at : ℕ → List ℕ → String
hex_at off bytes = encode_hex (slice off 32 bytes)

-- The same, where zeros stand for the text `unset`.
abbrev pub hex_or : String → List ℕ → String
hex_or unset bytes = if all_zero bytes then unset else encode_hex bytes

abbrev pub blank : BlockType → Block
blank type = record {
  type = type;
  account = "";
  previous = "";
  balance = 0;
  timestamp = pos 0;
  asset = "";
  representative = "";
  destination = "";
  amount = 0;
  source = "";
  vcpus = 0;
  memory_mb = 0;
  disk_gb = 0;
  duration = 0;
  access_pub_key = "";
  lease_min_duration_secs = 0;
  lease_settle_grace_ns = pos 0;
  lease_force_settle_gap_ns = pos 0;
  lease_escrow_expiry_ns = pos 0;
  lease_archive_gap_ns = pos 0;
  max_attestation_skew_ns = pos 0;
  memo = [];
  ms_keyset = none;
  signatures = [];
  pub_key = "";
  signature = "";
  hash = "";
  pow_nonce = 0;
  attestations = [];
  certificate_hash = "";
  locked_r = 0;
  locked_payout_cap = 0;
  locked_twap = 0;
}

unfoldable pub header_block : BlockType → List ℕ → Block
header_block type bytes = record (blank type) {
  account = hex_at 10 bytes;
  previous = hex_or "0" (slice 42 32 bytes);
  balance = u64_at 74 bytes;
  timestamp = i64_at 82 bytes;
  asset = ascii_text (trim_zeros (slice 2 8 bytes));
}

-- `count` keys, from an offset on.
unfoldable pub keys_at : ℕ → ℕ → List ℕ → List String
keys_at zero off bytes = []
keys_at (suc count) off bytes = hex_at off bytes ∷ keys_at count (off + 32) bytes

unfoldable pub unmarshal_keyset_canonical : List ℕ → Result (Keyset × ℕ)
unfolding keys_at
unmarshal_keyset_canonical bytes = do
  fail_if (ltb (length bytes) 8) "keyset data too short"
  let threshold = be_value 0 (slice 0 4 bytes)
  let num_keys = be_value 0 (slice 4 4 bytes)
  fail_if (ltb num_keys 1 || ltb 256 num_keys) "invalid key count: %d"
  fail_if (ltb (length bytes) (8 + 32 * num_keys)) "keyset data too short for %d keys"
  ok (record { keys = keys_at num_keys 8 bytes; threshold = pos threshold }, 8 + 32 * num_keys)

abbrev with_keyset : Block → List ℕ → Result (Block × ℕ)
with_keyset b bytes = do
  (ks, ks_len) ← unmarshal_keyset_canonical (drop 90 bytes)
  fail_if (ltb (length bytes) (90 + ks_len + 32))
      "UnmarshalBlock: data too short for %s after keyset"
  ok (record b { ms_keyset = some ks }, 90 + ks_len)

-- The fields of a type, and where the representative stands.
unfoldable pub type_fields : Block → List ℕ → BlockType → Result (Block × ℕ)
unfolding unmarshal_keyset_canonical
type_fields b bytes BlockType.send =
    ok (record b { destination = hex_at 90 bytes; amount = u64_at 122 bytes }, 130)
type_fields b bytes BlockType.receive = ok (record b { source = hex_at 90 bytes }, 122)
type_fields b bytes BlockType.lease = ok (
  record b {
    destination = hex_at 90 bytes;
    amount = u64_at 122 bytes;
    vcpus = u64_at 130 bytes;
    memory_mb = u64_at 138 bytes;
    disk_gb = u64_at 146 bytes;
    duration = u64_at 154 bytes;
    access_pub_key = hex_or "" (slice 162 32 bytes);
  },
  194,
)
type_fields b bytes BlockType.lease_cancel = ok (record b { source = hex_at 90 bytes }, 122)
type_fields b bytes BlockType.lease_force_settle = ok (record b { source = hex_at 90 bytes }, 122)
type_fields b bytes BlockType.lease_settle =
    ok (record b { source = hex_at 90 bytes; amount = u64_at 122 bytes }, 130)
type_fields b bytes BlockType.lease_accept = ok (
  record b {
    source = hex_at 90 bytes;
    amount = u64_at 122 bytes;
    locked_r = u64_at 130 bytes;
    locked_payout_cap = u64_at 138 bytes;
    locked_twap = u64_at 146 bytes;
  },
  154,
)
type_fields b bytes BlockType.multisig_open = with_keyset b bytes
type_fields b bytes BlockType.multisig_update = with_keyset b bytes
type_fields b bytes BlockType.burn = ok (record b { amount = u64_at 90 bytes }, 98)
type_fields b bytes BlockType.mint = ok (record b { amount = u64_at 90 bytes }, 98)
type_fields b bytes _ = ok (b, 90)

-- The lease timing of a genesis block, where its bytes go on, and where the block ends.
unfoldable pub genesis_fields : Block → List ℕ → ℕ → ℕ → Block × ℕ
genesis_fields b bytes rep_offset min_len =
    if is_genesis b.type && leb (rep_offset + 80) (length bytes)
    then (
      record b {
        lease_min_duration_secs = u64_at (rep_offset + 32) bytes;
        lease_settle_grace_ns = i64_at (rep_offset + 40) bytes;
        lease_force_settle_gap_ns = i64_at (rep_offset + 48) bytes;
        lease_escrow_expiry_ns = i64_at (rep_offset + 56) bytes;
        lease_archive_gap_ns = i64_at (rep_offset + 64) bytes;
        max_attestation_skew_ns = i64_at (rep_offset + 72) bytes;
      },
      rep_offset + 80,
    )
    else (b, min_len)

unfoldable pub memo_fields : Block → List ℕ → ℕ → ℕ → ℕ → Result (Block × ℕ)
memo_fields b bytes rep_offset min_len tail_offset =
    if not (has_memo b.type) then ok (b, tail_offset) else (do
      let memo_len = byte_at (rep_offset + 32) bytes
      fail_if (ltb max_memo_bytes memo_len) "UnmarshalBlock: memo length %d exceeds max %d"
      fail_if (ltb (length bytes) (min_len + memo_len))
          "UnmarshalBlock: data too short for %d-byte memo"
      let memo = slice min_len memo_len bytes
      validate_memo memo
      ok (record b { memo = memo }, min_len + memo_len))

unfoldable pub nonce_field : Block → List ℕ → ℕ → Block
nonce_field b bytes tail_offset =
    if length bytes == tail_offset + 8
    then record b { pow_nonce = le_value (drop tail_offset bytes) }
    else b

-- `unmarshalBlock`, of a type that the type byte gives.
unfoldable pub unmarshal_typed : List ℕ → BlockType × ℕ → Result Block
unfolding header_block type_fields genesis_fields memo_fields nonce_field
unmarshal_typed bytes (type, min_len) = do
  fail_if (ltb (length bytes) min_len)
      "UnmarshalBlock: data too short for %s block: need %d bytes, got %d"
  (fields, rep_offset) ← type_fields (header_block type bytes) bytes type
  let b = record fields { representative = hex_or "" (slice rep_offset 32 bytes) }
  let (timed, tail_offset) = genesis_fields b bytes rep_offset min_len
  (noted, end) ← memo_fields timed bytes rep_offset min_len tail_offset
  ok (nonce_field noted bytes end)

unfoldable pub unmarshal_block : List ℕ → Result Block
unfolding unmarshal_typed wire_type
unmarshal_block bytes = do
  fail_if (ltb (length bytes) 2) "UnmarshalBlock: data too short (%d bytes)"
  require (byte_at 0 bytes == version_byte) "UnmarshalBlock: unsupported version byte 0x%02x"
  found ← some_or (wire_type (byte_at 1 bytes)) "UnmarshalBlock: unknown type byte 0x%02x"
  unmarshal_typed bytes found
