-- ===== src/Tests/Wire.antt =====
-- A send, a renewal and a vote on the wire.
use xe.Prelude.{◌≡◌, refl, ok, err, true, [], ◌∷◌, String, List, ℕ, arith, Result}
use xe.Prelude.Int.{pos, sub_64}
use xe.Types.{Block, BlockType, is_valid_asset}
use xe.Quorum.{Vote}
use xe.Encoding.{marshal_block, marshal_block_canonical, hex_32, hex_32_or}
use xe.Memo.{validate_memo}
use xe.Hex.{byte_length, decode_hex}
use xe.Encoding.Decode.{unmarshal_block}
use xe.Encoding.Vote.{encode_vote, vote_signing_bytes, decode_vote}
use xe.Encoding.Vote.RoundTrip.{decode-encode_vote, canonical_vote}
use xe.Encoding.Wire.{IsTyped, wire_form}
use xe.Encoding.RoundTrip.{unmarshal-marshal_block}
use xe.Encoding.Parts.Renewal.{unmarshal_block-renewal}
use xe.Quorum.Voting.{validate_vote, get_vote_weight, rep_account}
use xe.Multisig.{decode_public_key}
use xe.Map.{lookup}
use xe.Ledger.Weights.{rep_eligible, eligible_allowlist, allowlist}
use xe.Tests.Fixtures.{block}
use xe.Tests.Admission.{node, weighted_ledger}

abbrev bytes_of : Result (List ℕ) → List ℕ
bytes_of (ok bytes) = bytes
bytes_of (err e) = []

abbrev key : String
key = "00000000000000000000000000000000000000000000000000000000000000Aa"

abbrev hash : String
hash = "00000000000000000000000000000000000000000000000000000000000000cc"

abbrev sent : Block
sent = record (block BlockType.send key "0" hash) {
  balance = 70;
  destination = key;
  amount = 30;
  memo = 104 ∷ 105 ∷ [];
  pow_nonce = 77;
}

abbrev renewal : Block
renewal = record (block BlockType.lease_renew key hash hash) { source = hash; amount = 5 }

abbrev vote : Vote
vote = record {
  rep_pub_key = key;
  block_hash = hash;
  conflict_account = key;
  conflict_prev = "0";
  timestamp = pos 1_000;
  final = true;
  signature = 1 ∷ 2 ∷ 3 ∷ [];
  weight = 9;
}

sent-IsTyped : IsTyped sent
sent-IsTyped = record {
  balance = omega arith;
  amount = omega arith;
  vcpus = omega arith;
  memory_mb = omega arith;
  disk_gb = omega arith;
  duration = omega arith;
  locked_r = omega arith;
  locked_payout_cap = omega arith;
  locked_twap = omega arith;
  pow_nonce = omega arith;
  timestamp = (omega arith, omega arith);
}

sends : marshal_block sent ≡ ok (bytes_of (marshal_block sent))
unfolding marshal_block marshal_block_canonical validate_memo byte_length decode_hex
sends = refl

renews : marshal_block renewal ≡ ok (bytes_of (marshal_block renewal))
unfolding marshal_block marshal_block_canonical validate_memo byte_length decode_hex
renews = refl

votes : encode_vote vote ≡ ok (bytes_of (encode_vote vote))
unfolding encode_vote vote_signing_bytes hex_32 decode_hex hex_32_or
votes = refl

unmarshal-marshal_block_example :
    unmarshal_block (bytes_of (marshal_block sent)) ≡ ok (wire_form sent)
unfolding is_valid_asset
unmarshal-marshal_block_example = unmarshal-marshal_block sent sent-IsTyped refl refl sends

unmarshal_block-renewal_example :
    unmarshal_block (bytes_of (marshal_block renewal))
    ≡ err "UnmarshalBlock: unknown type byte 0x%02x"
unmarshal_block-renewal_example = unmarshal_block-renewal renewal refl renews

decode-encode_vote_example : decode_vote (bytes_of (encode_vote vote)) ≡ ok (canonical_vote vote)
decode-encode_vote_example = decode-encode_vote vote (omega arith, omega arith) (omega arith) votes

-- A vote that is an hour old is refused.
late_vote :
    validate_vote node weighted_ledger (pos 3_600_000_001_000) vote
    ≡ err "ValidateVote: timestamp out of range: delta=%v"
unfolding validate_vote decode_public_key decode_hex vote_signing_bytes hex_32 hex_32_or
    get_vote_weight rep_eligible eligible_allowlist allowlist lookup rep_account sub_64
late_vote = refl
