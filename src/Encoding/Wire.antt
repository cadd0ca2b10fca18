-- ===== src/Encoding/Wire.antt =====
-- The block that the bytes of a block give back (core/encoding.go: MarshalBlock, UnmarshalBlock).
use xe.Prelude.{◌<◌, ℕ, ◌+◌, Bool, true, false, if◌then◌else◌}
use xe.Prelude.Int.{Int64}
use xe.Word.{modulus}
use xe.Types.{Block, BlockType}
use xe.Bytes.{canonical_hex}
use xe.Encoding.{has_memo}
use xe.Encoding.Decode.{blank}
use xe.Encoding.Texts.{canonical_or}

-- The numbers of a block are of the types that the source gives them.
pub record IsTyped (b : Block) : Type 0 where
  pub balance : b.balance < modulus
  pub amount : b.amount < modulus
  pub vcpus : b.vcpus < modulus
  pub memory_mb : b.memory_mb < modulus
  pub disk_gb : b.disk_gb < modulus
  pub duration : b.duration < modulus
  pub locked_r : b.locked_r < modulus
  pub locked_payout_cap : b.locked_payout_cap < modulus
  pub locked_twap : b.locked_twap < modulus
  pub pow_nonce : b.pow_nonce < modulus
  pub timestamp : Int64 b.timestamp

-- The types of transfers and leases whose encoding is read back whole.
abbrev pub reads_back : BlockType → Bool
reads_back BlockType.send = true
reads_back BlockType.receive = true
reads_back BlockType.lease = true
reads_back BlockType.lease_accept = true
reads_back BlockType.lease_settle = true
reads_back BlockType.lease_cancel = true
reads_back BlockType.lease_force_settle = true
reads_back BlockType.burn = true
reads_back BlockType.mint = true
reads_back _ = false

-- `w` with the fields that the encoding of a type keeps of `b`.
abbrev pub wire_fields : Block → Block → BlockType → Block
wire_fields b w BlockType.send = record w {
  destination = canonical_hex b.destination;
  amount = b.amount;
}
wire_fields b w BlockType.receive = record w { source = canonical_hex b.source }
wire_fields b w BlockType.lease = record w {
  destination = canonical_hex b.destination;
  amount = b.amount;
  vcpus = b.vcpus;
  memory_mb = b.memory_mb;
  disk_gb = b.disk_gb;
  duration = b.duration;
  access_pub_key = canonical_or "" b.access_pub_key;
}
wire_fields b w BlockType.lease_cancel = record w { source = canonical_hex b.source }
wire_fields b w BlockType.lease_force_settle = record w { source = canonical_hex b.source }
wire_fields b w BlockType.lease_settle = record w {
  source = canonical_hex b.source;
  amount = b.amount;
}
wire_fields b w BlockType.lease_accept = record w {
  source = canonical_hex b.source;
  amount = b.amount;
  locked_r = b.locked_r;
  locked_payout_cap = b.locked_payout_cap;
  locked_twap = b.locked_twap;
}
wire_fields b w BlockType.burn = record w { amount = b.amount }
wire_fields b w BlockType.mint = record w { amount = b.amount }
wire_fields b w _ = w

-- Where the representative stands.
abbrev pub fields_end : BlockType → ℕ
fields_end BlockType.send = 130
fields_end BlockType.receive = 122
fields_end BlockType.lease = 194
fields_end BlockType.lease_accept = 154
fields_end BlockType.lease_settle = 130
fields_end BlockType.lease_cancel = 122
fields_end BlockType.lease_force_settle = 122
fields_end BlockType.burn = 98
fields_end BlockType.mint = 98
fields_end _ = 90

abbrev pub min_len : BlockType → ℕ
min_len type = fields_end type + (if has_memo type then 33 else 32)

abbrev pub wire_header : Block → Block
wire_header b = record (blank b.type) {
  account = canonical_hex b.account;
  previous = canonical_or "0" b.previous;
  balance = b.balance;
  timestamp = b.timestamp;
  asset = b.asset;
}

-- The fields that the encoding keeps: hex in lower case, zeros as the text that stands for them.
unfoldable pub wire_form : Block → Block
wire_form b = record (wire_fields b (wire_header b) b.type) {
  representative = canonical_or "" b.representative;
  memo = b.memo;
  pow_nonce = b.pow_nonce;
}
