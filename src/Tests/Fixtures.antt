-- ===== src/Tests/Fixtures.antt =====
-- Three accounts, a minter among them, and the first blocks of a ledger.
use xe.Prelude.{false, ℕ, String, true, none, some, [], ◌∷◌, Result, ok, err}
use xe.Prelude.Int.{pos}
use xe.Types.{LeaseState, Lease, Block, BlockType}
use xe.Lease.{default_timing}
use xe.Store.{new_mem_store}
use xe.Ledger.{Ledger, LedgerConfig}

abbrev pub config : LedgerConfig
config = record {
  timing = default_timing;
  now = pos 1_000;
  timekeeper_config = none;
  minter_config = some ("minter" ∷ []);
  certificate_lookup = none;
  epoch_at = none;
  verify_attestation = λ a h. true;
}

abbrev pub empty_ledger : Ledger
empty_ledger = record {
  store = new_mem_store;
  delegation = [];
  weights = [];
  asset_balances = [];
  block_count = 0;
  delegation_underflow = 0;
  keysets = [];
  account_keys = [];
  reputation = [];
  active_cascade = none;
}

-- A block with nothing set beyond its type, account and place in the chain.
abbrev pub block : BlockType → String → String → String → Block
block type account previous hash = record {
  type = type;
  account = account;
  previous = previous;
  balance = 0;
  timestamp = pos 1_000;
  asset = "XUSD";
  representative = "";
  destination = "";
  amount = 0;
  source = "";
  vcpus = 0;
  memory_mb = 0;
  disk_gb = 0;
  duration = 0;
  access_pub_key = "";
  lease_min_duration_secs = 0;
  lease_settle_grace_ns = pos 0;
  lease_force_settle_gap_ns = pos 0;
  lease_escrow_expiry_ns = pos 0;
  lease_archive_gap_ns = pos 0;
  max_attestation_skew_ns = pos 0;
  memo = [];
  ms_keyset = none;
  signatures = [];
  pub_key = "";
  signature = "";
  hash = hash;
  pow_nonce = 0;
  attestations = [];
  certificate_hash = "";
  locked_r = 0;
  locked_payout_cap = 0;
  locked_twap = 0;
}

-- A ledger in which the genesis block has given 50 XE to alice.
abbrev pub genesis_block : Block
genesis_block = record (block BlockType.genesis "alice" "0" "g1") {
  asset = "XE";
  amount = 50;
  balance = 50;
}

abbrev pub genesis_ledger : Ledger
genesis_ledger = record empty_ledger {
  store = record new_mem_store {
    blocks = ("g1", genesis_block) ∷ [];
    chains = ("alice", genesis_block ∷ []) ∷ [];
    frontiers = ("alice", "g1") ∷ [];
  };
  asset_balances = ("alice", ("XE", 50) ∷ []) ∷ [];
  block_count = 1;
}

-- The minter mints 100 XUSD, sends 30 of them to bob, and bob receives them.
abbrev pub mint_block : Block
mint_block = record (block BlockType.mint "minter" "0" "m1") { amount = 100; balance = 100 }

abbrev pub send_block : Block
send_block = record (block BlockType.send "minter" "m1" "s1") {
  amount = 30;
  balance = 70;
  destination = "bob";
  memo = 104 ∷ 105 ∷ [];
}

abbrev pub receive_block : Block
receive_block = record (block BlockType.receive "bob" "0" "r1") { source = "s1"; balance = 30 }

-- Alice burns 20 XE.
abbrev pub burn_block : Block
burn_block = record (block BlockType.burn "alice" "g1" "b1") {
  asset = "XE";
  amount = 20;
  balance = 30;
}

-- What an accepted block leaves; the empty ledger, where it is refused.
abbrev pub accepted : Result Ledger → Ledger
accepted (ok l) = l
accepted (err e) = empty_ledger

-- A lease of alice's machine to bob, over one hour, with a timekeeper that attests the time.
abbrev pub lease_record : LeaseState → Lease
lease_record state = record {
  lease_hash = "l1";
  state = state;
  consumer = "bob";
  provider = "alice";
  vcpus = 1;
  memory_mb = 1024;
  disk_gb = 0;
  duration = 3600;
  access_pub_key = "";
  cost = 30_000;
  stake = 0;
  start_time = pos 0;
  certificate_hash = "c1";
  settled = false;
  locked_r = 2_000;
  locked_payout_cap = 0;
  locked_twap = 0;
  renewals = [];
}

abbrev pub lease_block : Block
lease_block = record (block BlockType.lease "bob" "0" "l1") {
  destination = "alice";
  amount = 30_000;
  certificate_hash = "c1";
}

abbrev pub leased_ledger : LeaseState → Ledger
leased_ledger state = record empty_ledger {
  store = record new_mem_store {
    blocks = ("g1", genesis_block) ∷ ("l1", lease_block) ∷ [];
    chains = ("alice", genesis_block ∷ []) ∷ ("bob", lease_block ∷ []) ∷ [];
    pending =
        (
          "l1",
          record {
            send_hash = "l1";
            source = "bob";
            destination = "alice";
            amount = 30_000;
            asset = "XUSD";
          },
        )
        ∷ [];
    leases = ("l1", lease_record state) ∷ [];
  };
  asset_balances = ("alice", ("XE", 50) ∷ []) ∷ [];
}

abbrev pub lease_config : LedgerConfig
lease_config = record config {
  timekeeper_config = some (record { keys = "clock" ∷ []; threshold = pos 1 });
  certificate_lookup = some (λ h.
      some
        (record { provider = "alice"; expires_at = pos 1_000_000; price_multiplier_milli = 1000 }));
}

-- An attestation by the timekeeper.
abbrev pub attested : ℕ → Block → Block
attested t b = record b {
  source = "l1";
  attestations = record { public_key = "clock"; timestamp = pos t; signature = "" } ∷ [];
}

abbrev pub accept_block : Block
accept_block = attested 1_000 (record (block BlockType.lease_accept "alice" "g1" "a1") {
  certificate_hash = "c1";
  locked_r = 2_000;
})

abbrev pub settle_block : Block
settle_block = attested 3_600_000_000_000 (record (block BlockType.lease_settle "alice" "g1" "e1") {
  asset = "XE";
  amount = 60_000;
  balance = 60_050;
})

abbrev pub force_settle_block : Block
force_settle_block =
    attested 9_000_000_000_000
      (record (block BlockType.lease_force_settle "bob" "l1" "f1") { balance = 30_000 })
