-- ===== src/Encoding/Vote.antt =====
-- The bytes of a vote, which its signature is of, and a vote from them (core/encoding.go:
-- voteSigningBytes, EncodeVote, DecodeVote).
pub mod RoundTrip
use xe.Prelude.{
  ℕ, ◌+◌, ◌%◌, ◌^◌, String, Bool, true, false, not, List, [], ◌∷◌, ◌++◌, Result, ok, ◌>>=◌, ◌>>◌,
  require, fail_if, ltb, ◌==◌, if◌then◌else◌, length,
}
use xe.Prelude.Int.{bits_64, int_64}
use xe.Bytes.{be, be_value, slice, byte_at, encode_hex}
use xe.Quorum.{Vote}
use xe.Encoding.{be_64, hex_32, hex_32_or}
use xe.Encoding.Decode.{hex_or}

abbrev pub vote_version_byte : ℕ
vote_version_byte = 2

unfoldable pub vote_signing_bytes : Vote → Result (List ℕ)
vote_signing_bytes v = do
  rep ←
      hex_32 v.rep_pub_key "voteSigningBytes: invalid RepPubKey hex: %w"
        "voteSigningBytes: RepPubKey must be 32 bytes, got %d"
  block_hash ←
      hex_32 v.block_hash "voteSigningBytes: invalid BlockHash hex: %w"
        "voteSigningBytes: BlockHash must be 32 bytes, got %d"
  account ←
      hex_32 v.conflict_account "voteSigningBytes: invalid ConflictAccount hex: %w"
        "voteSigningBytes: ConflictAccount must be 32 bytes, got %d"
  previous ←
      hex_32_or "0" v.conflict_prev "voteSigningBytes: invalid ConflictPrev hex: %w"
        "voteSigningBytes: ConflictPrev must be 32 bytes, got %d"
  ok (
      vote_version_byte
      ∷ (rep
          ++ (block_hash
              ++ (account
                  ++ (previous
                      ++ (be_64 (bits_64 v.timestamp) ++ (if v.final then 1 else 0) ∷ []))))))

unfoldable pub encode_vote : Vote → Result (List ℕ)
encode_vote v = do
  signing ← vote_signing_bytes v
  ok (signing ++ (be 2 (length v.signature % 2 ^ 16) ++ v.signature))

unfoldable pub decode_vote : List ℕ → Result Vote
decode_vote bytes = do
  fail_if (ltb (length bytes) 140) "DecodeVote: data too short (%d bytes)"
  require (byte_at 0 bytes == vote_version_byte) "DecodeVote: unsupported version byte 0x%02x"
  let sig_len = be_value 0 (slice 138 2 bytes)
  fail_if (ltb (length bytes) (140 + sig_len))
      "DecodeVote: data truncated: need %d bytes for signature, have %d"
  ok (record {
    rep_pub_key = encode_hex (slice 1 32 bytes);
    block_hash = encode_hex (slice 33 32 bytes);
    conflict_account = encode_hex (slice 65 32 bytes);
    conflict_prev = hex_or "0" (slice 97 32 bytes);
    timestamp = int_64 (be_value 0 (slice 129 8 bytes));
    final = not (byte_at 137 bytes == 0);
    signature = slice 140 sig_len bytes;
    weight = 0;
  })
