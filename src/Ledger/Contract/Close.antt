-- ===== src/Ledger/Contract/Close.antt =====
-- core/ledger.go, validateAndAddLeaseSettle and validateAndAddLeaseForceSettle: the end of a lease,
-- by its provider in time, or by its consumer after the provider's time has passed.
use xe.Prelude.{
  String, Bool, ◌&&◌, some, Result, ok, ◌>>=◌, ◌>>◌, require, fail_if, some_or, ltb, ◌==◌, str_eq,
  if◌then◌else◌,
}
use xe.Prelude.Int.{ℤ, ltb_ℤ, add_64}
use xe.Map.{lookup}
use xe.Types.{BlockCommit, Block, Lease, LeaseState, effective_duration_secs}
use xe.Lease.{effective_expiry, lease_total_emission, renewal_may_be_missing}
use xe.Reputation
use xe.Reputation.{ReputationEvent, EventKind}
use xe.Store.{is_set, same_state}
use xe.Ledger.{
  Ledger, LedgerConfig, get_account_chain_overlay, get_pending_send_overlay, get_lease_overlay,
  get_asset_balance_overlay,
}
use xe.Ledger.Commit.{prepare_block_write, commit_block_write}
use xe.Ledger.Attest.{attested_time}
use xe.Ledger.Transfer.{check_extends, check_credit}
use xe.Ledger.Undo.{is_lease_block}

-- The lease is accepted and not settled; the errors are the caller's.
abbrev require_accepted : Lease → String → String → Result (Unit {0})
require_accepted lease too_early wrong =
    require (same_state lease.state LeaseState.accepted)
      (if same_state lease.state LeaseState.created then too_early else wrong)

-- The settlement is after the end of the lease and within the grace.
unfoldable pub settle_time_ok : LedgerConfig → Lease → ℤ → Bool → Result (Unit {0})
settle_time_ok cfg lease settle_time skip_skew = do
  fail_if (ltb_ℤ settle_time (effective_expiry lease))
      "lease not yet expired: need timestamp >= %d, got %d"
  fail_if (ltb_ℤ (add_64 (effective_expiry lease) cfg.timing.lease_settle_grace) settle_time) (
      if skip_skew && renewal_may_be_missing lease
      then "lease settle past grace for the renewals applied here: timestamp %d exceeds expiry+grace %d: retry after sync"
      else "lease settle past grace: timestamp %d exceeds expiry+grace %d")

-- The amount is the emission of all the paid segments.
unfoldable pub settle_amount_ok : Block → Lease → Bool → Result (Unit {0})
settle_amount_ok b lease skip_skew = do
  expected ← lease_total_emission lease
  require (b.amount == expected) (
      if skip_skew && ltb expected b.amount && renewal_may_be_missing lease
      then "lease_settle XE exceeds the %d segment(s) applied here: expected %d, got %d: retry after sync"
      else "lease_settle XE mismatch: expected %d (segments=%d, base cost=%d, R=%d), got %d")

-- The checks of a settlement: the lease.
unfoldable pub lease_settle_checks : LedgerConfig → Ledger → Block → Bool → Result Lease
lease_settle_checks cfg l b skip_skew = do
  lease ← some_or (get_lease_overlay l b.source) "lease not found: %s"
  fail_if lease.settled "lease already settled"
  require (str_eq lease.provider b.account) "lease_settle: provider account mismatch"
  require_accepted lease "lease not yet accepted for settle (state %s): retry after accept"
      "lease_settle: lease not settleable in %s state"
  settle_time ← attested_time cfg skip_skew b "lease_settle: timekeepers not configured"
  settle_time_ok cfg lease settle_time skip_skew
  settle_amount_ok b lease skip_skew
  escrow ← some_or (get_pending_send_overlay l b.source) "no escrow pending to burn for lease: %s"
  chain ← some_or (get_account_chain_overlay l b.account) "lease_settle from unopened account"
  check_extends b chain
  check_credit (get_asset_balance_overlay l b.account "XE") b.amount b
      "lease_settle would overflow uint64 balance" "balance mismatch: expected %d, got %d"
  ok lease

-- What a settlement commits: the escrow goes, and the stake comes back.
unfoldable pub settle_commit : Ledger → Block → Lease → BlockCommit
settle_commit l b lease = record (prepare_block_write l b).0 {
  settle_lease_hash = b.source;
  delete_pending_id = b.source;
  expect_lease_hash = b.source;
  expect_lease_state = LeaseState.accepted;
  expect_lease_effective_duration_secs = effective_duration_secs lease;
  asset_credit = some (record { account = b.account; asset = "XUSD"; amount = lease.stake });
}

unfoldable pub validate_and_add_lease_settle : LedgerConfig → Ledger → Block → Bool → Result Ledger
validate_and_add_lease_settle cfg l b skip_skew = do
  require (str_eq b.asset "XE") "lease_settle block must have asset=XE"
  require (is_set b.source) "lease_settle must reference a source lease hash"
  found ← lease_settle_checks cfg l b skip_skew
  written ← commit_block_write (settle_commit l b found) (prepare_block_write l b).1 l
  ok (record written {
    reputation =
        Reputation.apply
          (record {
            kind = EventKind.lease_settled;
            provider = found.provider;
            consumer = found.consumer;
            timestamp = b.timestamp;
            duration_secs = found.duration;
          })
          written.reputation;
  })

-- The refund is asked for after the provider's time, and before the escrow expires.
unfoldable pub refund_time_ok : LedgerConfig → Lease → ℤ → Result (Unit {0})
refund_time_ok cfg lease force_time = do
  fail_if
      (ltb_ℤ force_time (
        add_64 (add_64 (effective_expiry lease) cfg.timing.lease_settle_grace)
          cfg.timing.lease_force_settle_gap))
      "lease not yet force-settleable: need timestamp >= %d, got %d"
  require (ltb_ℤ force_time (add_64 (effective_expiry lease) cfg.timing.lease_escrow_expiry))
      "lease escrow expired: refund window closed at %d, got %d"

-- The checks of a forced settlement: the lease.
unfoldable pub lease_force_settle_checks : LedgerConfig → Ledger → Block → Bool → Result (Lease)
lease_force_settle_checks cfg l b skip_skew = do
  lease_block ← some_or (lookup b.source l.store.blocks) "source lease block not found: %s"
  require (is_lease_block lease_block.type) "source block is not a lease block"
  require (str_eq lease_block.account b.account)
      "lease_force_settle: only the consumer can force-settle a lease"
  lease ← some_or (get_lease_overlay l b.source) "lease not found: %s"
  fail_if lease.settled "lease already settled"
  require_accepted lease "lease not yet accepted for force-settle (state %s): retry after accept"
      "cannot force-settle lease in %s state"
  force_time ← attested_time cfg skip_skew b "lease_force_settle: timekeepers not configured"
  refund_time_ok cfg lease force_time
  escrow ← some_or (get_pending_send_overlay l b.source) "no pending escrow for lease: %s"
  chain ← some_or (get_account_chain_overlay l b.account) "lease_force_settle from unopened account"
  check_extends b chain
  check_credit (get_asset_balance_overlay l b.account "XUSD") escrow.amount b
      "lease_force_settle would overflow uint64 balance" "balance mismatch: expected %d, got %d"
  ok lease

-- What a forced settlement commits.
unfoldable pub force_settle_commit : Ledger → Block → Lease → BlockCommit
force_settle_commit l b lease = record (prepare_block_write l b).0 {
  delete_pending_id = b.source;
  unfulfill_lease_hash = b.source;
  expect_lease_hash = b.source;
  expect_lease_state = LeaseState.accepted;
  expect_lease_effective_duration_secs = effective_duration_secs lease;
}

unfoldable pub validate_and_add_lease_force_settle :
    LedgerConfig → Ledger → Block → Bool → Result Ledger
validate_and_add_lease_force_settle cfg l b skip_skew = do
  require (str_eq b.asset "XUSD") "lease_force_settle block must have asset=XUSD"
  require (is_set b.source) "lease_force_settle must reference a source lease block"
  found ← lease_force_settle_checks cfg l b skip_skew
  written ← commit_block_write (force_settle_commit l b found) (prepare_block_write l b).1 l
  ok (record written {
    reputation =
        Reputation.apply
          (record {
            kind = EventKind.lease_unfulfilled;
            provider = found.provider;
            consumer = b.account;
            timestamp = b.timestamp;
            duration_secs = 0;
          })
          written.reputation;
  })
