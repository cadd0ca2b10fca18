-- ===== src/Tests/Leases.antt =====
-- An accept and the two settlements of a lease, on concrete ledgers.
use xe.Prelude.{◌≡◌, refl, ok, true}
use xe.Types.{LeaseState}
use xe.Ledger.{Ledger}
use xe.Ledger.Contract.Accept.{validate_and_add_lease_accept, lease_accept_checks}
use xe.Ledger.Contract.Close.{validate_and_add_lease_settle, validate_and_add_lease_force_settle}
use xe.Ledger.Contract.Lifecycle.{Moves, accept-Moves, settle-Moves, force_settle-Moves}
use xe.Map.{lookup}
use xe.Word.{safe_mul, safe_add, ceil_div}
use xe.Types.{effective_duration_secs, durations_from, frontier}
use xe.Prelude.Int.{add_64}
use xe.Lease.{
  effective_expiry, lease_total_emission, lease_emission_checked, renewals_emission, cap_r,
  lease_stake,
}
use xe.Attestation.{validate_attestations, collect, counts, median, sort, insert_sorted, is_skewed}
use xe.Store.{apply_commit, check_lease}
use xe.Ledger.{
  get_lease_overlay, get_account_chain_overlay, overlay_chain, get_asset_balance_overlay,
  get_asset_balance, get_pending_send_overlay, overlay_delegation_rep,
}
use xe.Ledger.Attest.{attested_time, validate_locked_emission_at}
use xe.Ledger.Commit.{
  prepare_block_write, commit_block_write, commit_plain, with_delegation, effective_rep,
}
use xe.Ledger.Transfer.{check_extends, check_debit, check_credit, check_timestamp}
use xe.Ledger.Contract.{debit_checks}
use xe.Ledger.Contract.Accept.{accept_certificate, accept_commit}
use xe.Ledger.Contract.Close.{
  settle_time_ok, settle_amount_ok, refund_time_ok, lease_settle_checks, lease_force_settle_checks,
  settle_commit, force_settle_commit,
}
use xe.Tests.Fixtures.{
  lease_config, leased_ledger, accept_block, settle_block, force_settle_block, accepted,
}

abbrev open_lease : Ledger
open_lease = leased_ledger LeaseState.created

abbrev running_lease : Ledger
running_lease = leased_ledger LeaseState.accepted

abbrev pub after_accept : Ledger
after_accept = accepted (validate_and_add_lease_accept lease_config open_lease accept_block true)

accept_ok :
    validate_and_add_lease_accept lease_config open_lease accept_block true ≡ ok after_accept
unfolding validate_and_add_lease_accept lease_accept_checks get_lease_overlay
    get_account_chain_overlay overlay_chain lookup debit_checks check_extends check_debit
    check_credit check_timestamp get_asset_balance_overlay get_asset_balance attested_time
    validate_attestations collect counts median sort insert_sorted is_skewed accept_certificate
    validate_locked_emission_at lease_stake get_pending_send_overlay effective_expiry
    effective_duration_secs durations_from add_64 lease_total_emission lease_emission_checked
    renewals_emission cap_r safe_mul safe_add ceil_div settle_time_ok settle_amount_ok
    refund_time_ok lease_settle_checks lease_force_settle_checks accept_commit settle_commit
    force_settle_commit frontier prepare_block_write commit_block_write commit_plain with_delegation
    effective_rep overlay_delegation_rep apply_commit check_lease
accept_ok = refl

accept-Moves_example :
    Moves "l1" LeaseState.created LeaseState.accepted open_lease.store.leases
      after_accept.store.leases
accept-Moves_example = accept-Moves lease_config open_lease accept_block true refl accept_ok

abbrev after_settle : Ledger
after_settle = accepted (validate_and_add_lease_settle lease_config running_lease settle_block true)

settle_ok :
    validate_and_add_lease_settle lease_config running_lease settle_block true ≡ ok after_settle
unfolding validate_and_add_lease_settle get_lease_overlay get_account_chain_overlay overlay_chain
    lookup debit_checks check_extends check_debit check_credit check_timestamp
    get_asset_balance_overlay get_asset_balance attested_time validate_attestations collect counts
    median sort insert_sorted is_skewed accept_certificate validate_locked_emission_at lease_stake
    get_pending_send_overlay effective_expiry effective_duration_secs durations_from add_64
    lease_total_emission lease_emission_checked renewals_emission cap_r safe_mul safe_add ceil_div
    settle_time_ok settle_amount_ok refund_time_ok lease_settle_checks lease_force_settle_checks
    lease_accept_checks accept_commit settle_commit force_settle_commit frontier prepare_block_write
    commit_block_write commit_plain with_delegation effective_rep overlay_delegation_rep
    apply_commit check_lease
settle_ok = refl

settle-Moves_example :
    Moves "l1" LeaseState.accepted LeaseState.settled running_lease.store.leases
      after_settle.store.leases
settle-Moves_example = settle-Moves lease_config running_lease settle_block true refl settle_ok

abbrev after_force_settle : Ledger
after_force_settle =
    accepted
      (validate_and_add_lease_force_settle lease_config running_lease force_settle_block true)

force_settle_ok :
    validate_and_add_lease_force_settle lease_config running_lease force_settle_block true
    ≡ ok after_force_settle
unfolding validate_and_add_lease_force_settle get_lease_overlay get_account_chain_overlay
    overlay_chain lookup debit_checks check_extends check_debit check_credit check_timestamp
    get_asset_balance_overlay get_asset_balance attested_time validate_attestations collect counts
    median sort insert_sorted is_skewed accept_certificate validate_locked_emission_at lease_stake
    get_pending_send_overlay effective_expiry effective_duration_secs durations_from add_64
    lease_total_emission lease_emission_checked renewals_emission cap_r safe_mul safe_add ceil_div
    settle_time_ok settle_amount_ok refund_time_ok lease_settle_checks lease_force_settle_checks
    lease_accept_checks accept_commit settle_commit force_settle_commit frontier prepare_block_write
    commit_block_write commit_plain with_delegation effective_rep overlay_delegation_rep
    apply_commit check_lease
force_settle_ok = refl

force_settle-Moves_example :
    Moves "l1" LeaseState.accepted LeaseState.unfulfilled running_lease.store.leases
      after_force_settle.store.leases
force_settle-Moves_example =
    force_settle-Moves lease_config running_lease force_settle_block true refl force_settle_ok
