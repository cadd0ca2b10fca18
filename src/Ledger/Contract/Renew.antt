-- ===== src/Ledger/Contract/Renew.antt =====
-- core/lease_renew.go, validateAndAddLeaseRenew: the consumer pays for more time.
use xe.Prelude.{
  Bool, some, [], ◌∷◌, ◌++◌, Result, ok, ◌>>=◌, ◌>>◌, require, fail_if, some_or, ltb, ◌==◌, str_eq,
  if◌then◌else◌,
}
use xe.Prelude.Int.{ℤ, ltb_ℤ}
use xe.Word.{safe_add}
use xe.Types.{Block, Lease, LeaseState, CertificateInfo, effective_duration_secs}
use xe.Lease.{lease_max_duration, lease_cost, effective_expiry}
use xe.Store.{is_set, same_state}
use xe.Ledger.{
  Ledger, LedgerConfig, get_account_chain_overlay, get_pending_send_overlay, get_lease_overlay,
}
use xe.Ledger.Commit.{prepare_block_write, commit_block_write}
use xe.Ledger.Attest.{attested_time, validate_locked_emission_at}
use xe.Ledger.Contract.{debit_checks, expired}

-- The lease is live, and the block's account is its consumer.
unfoldable pub renewable : Block → Lease → Result (Unit {0})
renewable b lease = do
  fail_if lease.settled "lease already settled"
  require (same_state lease.state LeaseState.accepted) (
      if same_state lease.state LeaseState.created
      then "lease not yet accepted for renewal (state %s): retry after accept"
      else "lease_renew: lease not renewable in %s state")
  require (str_eq lease.consumer b.account) "lease_renew: only the consumer can renew a lease"

-- The total duration stays within the maximum.
unfoldable pub renewal_duration : LedgerConfig → Block → Lease → Result (Unit {0})
renewal_duration cfg b lease = do
  fail_if (ltb b.duration cfg.timing.lease_min_duration)
      "lease_renew duration must be >= %d seconds, got %d"
  total ←
      some_or (safe_add (effective_duration_secs lease) b.duration)
        "lease_renew: cumulative duration %d + %d exceeds max %d"
  fail_if (ltb lease_max_duration total) "lease_renew: cumulative duration %d + %d exceeds max %d"

unfoldable pub renewal_certificate : LedgerConfig → Block → Lease → ℤ → Result CertificateInfo
renewal_certificate cfg b lease renew_time = do
  require (is_set b.certificate_hash) "lease_renew: performance certificate required"
  certificate ← some_or cfg.certificate_lookup "lease_renew: certificate lookup not configured"
  cert ← some_or (certificate b.certificate_hash) "lease_renew: certificate %s not found"
  require (str_eq cert.provider lease.provider)
      "lease_renew: certificate %s belongs to %s, not the lease provider %s"
  fail_if (expired cert.expires_at renew_time)
      "lease_renew: certificate %s expired at %d, renewal time %d"
  ok cert

abbrev pub renewed_lease : Block → Lease → ℤ → Lease
renewed_lease b lease renew_time = record lease {
  renewals =
      lease.renewals
      ++ record {
        renew_hash = b.hash;
        duration = b.duration;
        cost = b.amount;
        start_time = renew_time;
        certificate_hash = b.certificate_hash;
        locked_r = b.locked_r;
        locked_payout_cap = b.locked_payout_cap;
        locked_twap = b.locked_twap;
      }
        ∷ [];
}

-- The checks of a renewal: the lease, and the time of the renewal.
unfoldable pub lease_renew_checks : LedgerConfig → Ledger → Block → Bool → Result (Lease × ℤ)
lease_renew_checks cfg l b skip_skew = do
  lease ← some_or (get_lease_overlay l b.source) "lease not found: %s"
  renewable b lease
  renewal_duration cfg b lease
  renew_time ← attested_time cfg skip_skew b "lease_renew: timekeepers not configured"
  fail_if (ltb_ℤ renew_time lease.start_time) "lease_renew: renewal time %d before lease start %d"
  require (ltb_ℤ renew_time (effective_expiry lease))
      "lease_renew: lease no longer live (renewal time %d >= effective expiry %d)"
  cert ← renewal_certificate cfg b lease renew_time
  cost ←
      lease_cost cfg.timing lease.vcpus lease.memory_mb lease.disk_gb b.duration
        cert.price_multiplier_milli
  require (b.amount == cost) "lease_renew cost mismatch: expected %d (multiplier %d), got %d"
  fail_if (b.locked_r == 0) "lease_renew missing locked emission params: locked_r must be set"
  validate_locked_emission_at cfg renew_time b skip_skew
  escrow ← some_or (get_pending_send_overlay l b.source) "lease_renew: no live escrow for lease %s"
  chain ← some_or (get_account_chain_overlay l b.account) "lease_renew from unopened account"
  debit_checks l b chain "insufficient XUSD balance for renewal: have %d, need %d"
  ok (lease, renew_time)

unfoldable pub validate_and_add_lease_renew : LedgerConfig → Ledger → Block → Bool → Result Ledger
validate_and_add_lease_renew cfg l b skip_skew = do
  require (str_eq b.asset "XUSD") "lease_renew block must have asset=XUSD"
  require (is_set b.source) "lease_renew must reference a source lease hash"
  found ← lease_renew_checks cfg l b skip_skew
  let (commit, prev_balance) = prepare_block_write l b
  commit_block_write
      (record commit {
        top_up_pending_id = b.source;
        top_up_pending_amount = b.amount;
        put_lease = some (renewed_lease b found.0 found.1);
        expect_lease_hash = b.source;
        expect_lease_state = LeaseState.accepted;
        expect_lease_effective_duration_secs = effective_duration_secs found.0;
      })
      prev_balance l
