-- ===== src/Ledger/Contract/Accept.antt =====
-- core/ledger.go, validateAndAddLeaseAccept: the provider accepts a lease.
use xe.Prelude.{
  Bool, true, false, Option, none, some, [], Result, ok, ◌>>=◌, ◌>>◌, require, fail_if, some_or,
  ◌==◌, str_eq,
}
use xe.Prelude.Int.{ℤ, ltb_ℤ}
use xe.Map.{lookup}
use xe.Types.{BlockCommit, Block, Lease, LeaseState}
use xe.Lease.{lease_stake}
use xe.Reputation
use xe.Reputation.{ReputationEvent, EventKind}
use xe.Store.{is_set, same_state}
use xe.Ledger.{Ledger, LedgerConfig, get_account_chain_overlay, get_lease_overlay}
use xe.Ledger.Commit.{prepare_block_write, commit_block_write}
use xe.Ledger.Attest.{attested_time, validate_locked_emission_at}
use xe.Ledger.Contract.{debit_checks}
use xe.Ledger.Undo.{is_lease_block}

-- The record, where there is one, is in the created state.
abbrev not_accepted : Option Lease → Bool
not_accepted none = true
not_accepted (some lease) = same_state lease.state LeaseState.created

-- The certificate of the provider that the accept names, at the start of the lease.
unfoldable pub accept_certificate : LedgerConfig → Block → Block → ℤ → Result (Unit {0})
accept_certificate cfg b lease_block start_time = do
  require (is_set b.certificate_hash) "lease_accept: performance certificate required"
  require (str_eq lease_block.certificate_hash b.certificate_hash)
      "lease_accept: certificate hash %s does not match lease's referenced cert %s"
  certificate ← some_or cfg.certificate_lookup "lease_accept: certificate lookup not configured"
  cert ← some_or (certificate b.certificate_hash) "lease_accept: certificate not found: %s"
  require (str_eq cert.provider b.account) "lease_accept: certificate belongs to different provider"
  fail_if (ltb_ℤ cert.expires_at start_time) "lease_accept: certificate expired"

abbrev pub accepted_lease : Block → Block → ℤ → Lease
accepted_lease b lease_block start_time = record {
  lease_hash = b.source;
  state = LeaseState.accepted;
  consumer = lease_block.account;
  provider = b.account;
  vcpus = lease_block.vcpus;
  memory_mb = lease_block.memory_mb;
  disk_gb = lease_block.disk_gb;
  duration = lease_block.duration;
  access_pub_key = lease_block.access_pub_key;
  cost = lease_block.amount;
  stake = b.amount;
  start_time = start_time;
  certificate_hash = b.certificate_hash;
  settled = false;
  locked_r = b.locked_r;
  locked_payout_cap = b.locked_payout_cap;
  locked_twap = b.locked_twap;
  renewals = [];
}

-- The checks of an accept: the lease block, and the start of the lease.
unfoldable pub lease_accept_checks : LedgerConfig → Ledger → Block → Bool → Result (Block × ℤ)
lease_accept_checks cfg l b skip_skew = do
  lease_block ← some_or (lookup b.source l.store.blocks) "source lease block not found: %s"
  require (is_lease_block lease_block.type) "source block is not a lease block"
  require (str_eq lease_block.destination b.account) "lease_accept: provider account mismatch"
  require (not_accepted (get_lease_overlay l b.source)) "lease already accepted"
  require (b.amount == lease_stake lease_block.amount)
      "lease_accept stake mismatch: expected %d, got %d"
  chain ← some_or (get_account_chain_overlay l b.account) "lease_accept from unopened account"
  debit_checks l b chain "insufficient XUSD balance for stake: have %d, need %d"
  start_time ← attested_time cfg skip_skew b "lease_accept: timekeepers not configured"
  accept_certificate cfg b lease_block start_time
  fail_if (b.locked_r == 0)
      "lease_accept missing locked emission params: locked_r must be set (the accept must carry locked_r/locked_payout_cap/locked_twap)"
  validate_locked_emission_at cfg start_time b skip_skew
  ok (lease_block, start_time)

-- What an accept commits.
unfoldable pub accept_commit : Ledger → Block → Block → ℤ → BlockCommit
accept_commit l b lease_block start_time = record (prepare_block_write l b).0 {
  expect_lease_hash = b.source;
  expect_lease_state = LeaseState.created;
  put_lease = some (accepted_lease b lease_block start_time);
}

unfoldable pub validate_and_add_lease_accept : LedgerConfig → Ledger → Block → Bool → Result Ledger
validate_and_add_lease_accept cfg l b skip_skew = do
  require (str_eq b.asset "XUSD") "lease_accept block must have asset=XUSD"
  require (is_set b.source) "lease_accept must reference a source lease block"
  found ← lease_accept_checks cfg l b skip_skew
  written ← commit_block_write (accept_commit l b found.0 found.1) (prepare_block_write l b).1 l
  ok (record written {
    reputation =
        Reputation.apply
          (record {
            kind = EventKind.lease_accepted;
            provider = b.account;
            consumer = found.0.account;
            timestamp = found.1;
            duration_secs = 0;
          })
          written.reputation;
  })
