-- ===== src/Types.antt =====
-- The data of the ledger: core/types.go (blocks, chains, pending sends, leases, certificates), the
-- commit and undo records of core/store.go and the block statuses of core/quorum.go.
-- Text fields are texts, a uint64 is a number, an int64 is an integer; a nil pointer is `none`.
use xe.Prelude.{
  ℕ, String, Bool, true, false, List, [], ◌∷◌, Option, none, some, ◌||◌, str_eq, get_last?,
}
use xe.Prelude.Int.{ℤ}
use xe.Word.{add_u64}

pub data BlockType : Type 0 where
  send receive mint genesis burn lease lease_accept lease_settle lease_cancel : BlockType
  lease_force_settle lease_renew multisig_open multisig_update : BlockType
  -- any other text
  other : String → BlockType

unfoldable pub is_valid_asset : String → Bool
is_valid_asset asset = str_eq asset "XE" || str_eq asset "XUSD"

pub record Keyset : Type 0 where
  pub keys : List String
  pub threshold : ℤ

pub record BlockSignature : Type 0 where
  pub public_key : String
  pub sig : String

pub record TimekeeperAttestation : Type 0 where
  pub public_key : String
  pub timestamp : ℤ
  pub signature : String

pub record Block : Type 0 where
  pub type : BlockType
  pub account : String
  pub previous : String
  pub balance : ℕ
  pub timestamp : ℤ
  pub asset : String
  pub representative : String
  pub destination : String
  pub amount : ℕ
  pub source : String
  pub vcpus : ℕ
  pub memory_mb : ℕ
  pub disk_gb : ℕ
  pub duration : ℕ
  pub access_pub_key : String
  pub lease_min_duration_secs : ℕ
  pub lease_settle_grace_ns : ℤ
  pub lease_force_settle_gap_ns : ℤ
  pub lease_escrow_expiry_ns : ℤ
  pub lease_archive_gap_ns : ℤ
  pub max_attestation_skew_ns : ℤ
  -- the bytes of the text
  pub memo : List ℕ
  pub ms_keyset : Option Keyset
  pub signatures : List BlockSignature
  pub pub_key : String
  pub signature : String
  pub hash : String
  pub pow_nonce : ℕ
  pub attestations : List TimekeeperAttestation
  pub certificate_hash : String
  pub locked_r : ℕ
  pub locked_payout_cap : ℕ
  pub locked_twap : ℕ

-- `TimekeeperConfig.Threshold` is an int that a configuration sets; a negative one is kept.
pub record TimekeeperConfig : Type 0 where
  pub keys : List String
  pub threshold : ℤ

-- An `AccountChain` is its blocks, the oldest first.
abbrev pub AccountChain : Type 0
AccountChain = List Block

unfoldable pub frontier : AccountChain → String
frontier chain = elim (get_last? chain) [ none ↦ "0" | some b ↦ b.hash ]

pub record PendingSend : Type 0 where
  pub send_hash : String
  pub source : String
  pub destination : String
  pub amount : ℕ
  pub asset : String

-- Times are in nanoseconds.
pub record Conflict : Type 0 where
  pub account_address : String
  pub previous_hash : String
  pub block_hashes : List String
  pub detected_at : ℤ
  pub weight_snapshot : List (String × ℕ)
  pub total_weight : ℕ

pub data LeaseState : Type 0 where
  -- The empty state of an old record.
  unset : LeaseState
  created accepted settled cancelled unfulfilled expired : LeaseState

unfoldable pub terminal : LeaseState → Bool
terminal settled = true
terminal cancelled = true
terminal unfulfilled = true
terminal expired = true
terminal _ = false

pub record LeaseSegment : Type 0 where
  pub renew_hash : String
  pub duration : ℕ
  pub cost : ℕ
  pub start_time : ℤ
  pub certificate_hash : String
  pub locked_r : ℕ
  pub locked_payout_cap : ℕ
  pub locked_twap : ℕ

pub record Lease : Type 0 where
  pub lease_hash : String
  pub state : LeaseState
  pub consumer : String
  pub provider : String
  pub vcpus : ℕ
  pub memory_mb : ℕ
  pub disk_gb : ℕ
  pub duration : ℕ
  pub access_pub_key : String
  pub cost : ℕ
  pub stake : ℕ
  pub start_time : ℤ
  pub certificate_hash : String
  pub settled : Bool
  pub locked_r : ℕ
  pub locked_payout_cap : ℕ
  pub locked_twap : ℕ
  pub renewals : List LeaseSegment

unfoldable pub durations_from : ℕ → List LeaseSegment → ℕ
durations_from total [] = total
durations_from total (s ∷ rest) = durations_from (add_u64 total s.duration) rest

unfoldable pub effective_duration_secs : Lease → ℕ
unfolding durations_from
effective_duration_secs l = durations_from l.duration l.renewals

pub record CertificateInfo : Type 0 where
  pub provider : String
  pub expires_at : ℤ
  pub price_multiplier_milli : ℕ

pub record AssetDelta : Type 0 where
  pub account : String
  pub asset : String
  pub amount : ℕ

-- One atomic write of a block. An id or hash that is the empty text is not set.
pub record BlockCommit : Type 0 where
  pub block : Block
  pub account : String
  pub chain : AccountChain
  pub frontier_hash : String
  pub add_pending : Option PendingSend
  pub delete_pending_id : String
  pub put_lease : Option Lease
  pub settle_lease_hash : String
  pub cancel_lease_hash : String
  pub unfulfill_lease_hash : String
  pub delegation_rep : String
  pub delete_delegation : Bool
  pub put_keyset : Option Keyset
  pub put_account_key : String
  pub expect_lease_hash : String
  pub expect_lease_state : LeaseState
  pub asset_credit : Option AssetDelta
  pub top_up_pending_id : String
  pub top_up_pending_amount : ℕ
  pub expect_lease_effective_duration_secs : ℕ

pub record BlockUndo : Type 0 where
  pub account : String
  pub chain : AccountChain
  pub frontier_hash : String
  pub add_pending : Option PendingSend
  pub delete_pending_id : String
  pub reject_hash : String
  pub delete_account : Bool
  pub restore_delegation : Bool
  pub prev_rep : String
  pub restore_lease : Option Lease
  pub delete_lease_hash : String
  pub delete_keyset_account : String
  pub delete_account_key_account : String
  pub asset_debit : Option AssetDelta
  pub reduce_pending_id : String
  pub reduce_pending_amount : ℕ

pub data BlockStatus : Type 0 where
  pending finalized rejected : BlockStatus
