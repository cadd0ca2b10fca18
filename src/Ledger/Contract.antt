-- ===== src/Ledger/Contract.antt =====
-- The handlers of the blocks that open, accept, renew and close a lease: core/ledger.go
-- (validateAndAddLease, validateAndAddLeaseAccept, validateAndAddLeaseSettle,
-- validateAndAddLeaseForceSettle) and core/lease_renew.go (validateAndAddLeaseRenew).
pub mod Accept
pub mod Cancel
pub mod Refund
pub mod Renew
pub mod Close
pub mod Lifecycle
use xe.Prelude.{
  length, ℕ, zero, ◌+◌, String, Bool, true, false, not, ◌&&◌, ◌||◌, Option, none, some, [], ◌∷◌,
  ◌++◌, Result, ok, err, ◌>>=◌, ◌>>◌, require, fail_if, some_or, when_some, ltb, leb, ◌==◌, str_eq,
  if◌then◌else◌,
}
use xe.Prelude.Int.{ℤ, pos, negsuc, ltb_ℤ, add_64}
use xe.Hex.{decode_hex}
use xe.Map.{lookup}
use xe.Word.{safe_add}
use xe.Types.{
  Block, BlockType, Lease, LeaseSegment, LeaseState, AccountChain, CertificateInfo, BlockCommit,
  effective_duration_secs,
}
use xe.Lease.{
  lease_max_duration, lease_stake, lease_cost, validate_lease_dimensions, effective_expiry,
  lease_total_emission, renewal_may_be_missing,
}
use xe.Reputation
use xe.Reputation.{ReputationEvent, EventKind}
use xe.Store.{is_set, same_state}
use xe.Ledger.{
  Ledger, LedgerConfig, get_account_chain_overlay, get_pending_send_overlay, get_lease_overlay,
  get_asset_balance_overlay,
}
use xe.Ledger.Commit.{prepare_block_write, commit_block_write}
use xe.Ledger.Attest.{attested_time, validate_locked_emission_at}
use xe.Ledger.Transfer.{check_extends, check_debit, check_credit, pending_of}

unfoldable pub check_access_key : String → Result (Unit {0})
check_access_key key = if str_eq key "" then ok tt else do
  bytes ← some_or (decode_hex key) "invalid access_pub_key hex: %w"
  require (length bytes == 32) "access_pub_key must be 32 bytes, got %d"

-- `t != 0 && at > t`
abbrev pub expired : ℤ → ℤ → Bool
expired (pos zero) at_time = false
expired t at_time = ltb_ℤ t at_time

-- The certificate that a lease block references, fit for its provider at its time.
unfoldable pub lease_certificate : LedgerConfig → Block → Result CertificateInfo
lease_certificate cfg b = do
  require (is_set b.certificate_hash) "lease block must include certificate_hash"
  certificate ←
      some_or cfg.certificate_lookup
        "lease block cannot be validated: certificate lookup not configured"
  cert ← some_or (certificate b.certificate_hash) "certificate %s not found"
  require (str_eq cert.provider b.destination)
      "certificate %s belongs to %s, not lease destination %s"
  fail_if (expired cert.expires_at b.timestamp) "certificate %s expired at %d, lease timestamp %d"
  ok cert

abbrev created_lease : Block → Lease
created_lease b = record {
  lease_hash = b.hash;
  state = LeaseState.created;
  consumer = b.account;
  provider = b.destination;
  vcpus = b.vcpus;
  memory_mb = b.memory_mb;
  disk_gb = b.disk_gb;
  duration = b.duration;
  access_pub_key = b.access_pub_key;
  cost = b.amount;
  stake = 0;
  start_time = pos 0;
  certificate_hash = b.certificate_hash;
  settled = false;
  locked_r = 0;
  locked_payout_cap = 0;
  locked_twap = 0;
  renewals = [];
}

-- The block takes its amount out of its account's XUSD.
unfoldable pub debit_checks : Ledger → Block → AccountChain → String → Result (Unit {0})
unfolding check_extends check_debit
debit_checks l b chain short = do
  check_extends b chain
  check_debit (get_asset_balance_overlay l b.account "XUSD") b short

unfoldable pub validate_and_add_lease : LedgerConfig → Ledger → Block → Result Ledger
validate_and_add_lease cfg l b = do
  require (str_eq b.asset "XUSD") "lease block must have asset=XUSD"
  require (is_set b.destination) "lease block must have a destination (provider)"
  fail_if (str_eq b.destination b.account) "cannot lease to self"
  validate_lease_dimensions cfg.timing b.vcpus b.memory_mb b.disk_gb b.duration
  check_access_key b.access_pub_key
  cert ← lease_certificate cfg b
  cost ← lease_cost cfg.timing b.vcpus b.memory_mb b.disk_gb b.duration cert.price_multiplier_milli
  require (b.amount == cost) "lease cost mismatch: expected %d (multiplier %d), got %d"
  chain ← some_or (get_account_chain_overlay l b.account) "lease from unopened account"
  debit_checks l b chain "insufficient XUSD balance: have %d, need %d"
  let (commit, prev_balance) = prepare_block_write l b
  commit_block_write
      (record commit {
        add_pending = some (pending_of b "XUSD");
        put_lease = some (created_lease b);
      })
      prev_balance l
