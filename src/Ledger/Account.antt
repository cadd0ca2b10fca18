-- ===== src/Ledger/Account.antt =====
-- The handlers of the blocks that open the ledger and the multisig accounts (core/ledger.go:
-- validateAndAddGenesis, validateAndAddMultisigOpen, validateAndAddMultisigUpdate, with
-- core/genesis.go: ValidateGenesisBlock).
use xe.Prelude.{
  ℕ, String, Bool, true, false, ◌&&◌, Option, none, some, [], ◌∷◌, Result, ok, ◌>>=◌, ◌>>◌, require,
  fail_if, some_or, when_some, ◌==◌, ltb, str_eq, length,
}
use xe.Prelude.Int.{ℤ, pos, negsuc, ltb_ℤ, add_64}
use xe.Hex.{decode_hex}
use xe.Map.{insert}
use xe.Types.{Block, BlockType, Keyset, AccountChain}
use xe.Lease.{apply_genesis_lease_timing}
use xe.Multisig.{validate_keyset}
use xe.Store.{is_set}
use xe.Ledger.{Ledger, get_account_chain_overlay, get_keyset_overlay, get_asset_balance_overlay}
use xe.Ledger.Commit.{prepare_block_write, commit_block_write}
use xe.Ledger.Transfer.{check_extends}
use xe.Ledger.Credential.{Host, verify_block}

abbrev pub zero_address : String
zero_address = "0000000000000000000000000000000000000000000000000000000000000000"

unfoldable pub validate_genesis_representative : Block → Result (Unit {0})
validate_genesis_representative b = do
  require (is_set b.representative) "genesis: representative is required"
  require (when_some (decode_hex b.representative) false (λ rep. length rep == 32))
      "genesis: representative must be 64 hex characters (32-byte account address), got %q"
  fail_if (str_eq b.representative zero_address)
      "genesis: representative must not be the all-zero address"
  fail_if (is_set b.pub_key && str_eq b.representative b.pub_key)
      "genesis: representative is the genesis PUBLIC KEY, not an account address"

-- The lease timing with its defaults is in order; the sums are of int64.
unfoldable pub validate_genesis_lease_timing : Block → Result (Unit {0})
validate_genesis_lease_timing b = do
  let t = apply_genesis_lease_timing (some b)
  fail_if (ltb t.lease_min_duration 1) "genesis: lease_min_duration_secs must be >= 1, got %d"
  require (ltb_ℤ (pos 0) t.lease_settle_grace) "genesis: lease_settle_grace_ns must be > 0, got %d"
  require (ltb_ℤ (pos 0) t.max_attestation_skew)
      "genesis: max_attestation_skew_ns must be > 0, got %d"
  require (ltb_ℤ (add_64 t.max_attestation_skew t.max_attestation_skew) t.lease_force_settle_gap)
      "genesis: lease_force_settle_gap_ns (%d) must exceed 2×max_attestation_skew_ns (%d)"
  require (ltb_ℤ (add_64 t.lease_settle_grace t.lease_force_settle_gap) t.lease_escrow_expiry)
      "genesis: lease_escrow_expiry_ns (%d) must exceed settle_grace+force_settle_gap (%d)"
  require (ltb_ℤ (pos 0) t.lease_archive_gap) "genesis: lease_archive_gap_ns must be > 0, got %d"

abbrev is_genesis : BlockType → Bool
is_genesis BlockType.genesis = true
is_genesis _ = false

abbrev at_zero : ℤ → Bool
at_zero (pos n) = n == 0
at_zero (negsuc n) = false

-- `host` hashes with the empty network id.
unfoldable pub validate_genesis_block : Host → ℕ → Block → Result (Unit {0})
validate_genesis_block host genesis_supply b = do
  require (is_genesis b.type) "genesis: type must be %q, got %q"
  require (str_eq b.previous "0") "genesis: previous must be \"0\""
  require (at_zero b.timestamp) "genesis: timestamp must be 0"
  require (str_eq b.asset "XE") "genesis: asset must be \"XE\", got %q"
  require (b.balance == genesis_supply) "genesis: balance must be %d, got %d"
  require (is_set b.account) "genesis: account must not be empty"
  validate_genesis_representative b
  validate_genesis_lease_timing b
  verify_block host b

-- The store is not empty.
abbrev has_blocks : Ledger → Bool
has_blocks l = elim l.store.blocks [ [] ↦ false | e ∷ rest ↦ true ]

-- `addBlockLocked`
unfoldable pub add_block_locked : Ledger → Block → Result Ledger
add_block_locked l b = do
  let (commit, prev_balance) = prepare_block_write l b
  commit_block_write commit prev_balance l

unfoldable pub validate_and_add_genesis : Host → ℕ → Ledger → Block → Result Ledger
validate_and_add_genesis host genesis_supply l b = do
  fail_if (has_blocks l) "genesis block rejected: ledger is not empty"
  expected ← host.genesis
  require (str_eq b.hash expected.hash) "genesis hash mismatch: got %s, want %s"
  validate_genesis_block host genesis_supply b
  add_block_locked l b

-- The write of a keyset, in the store and in the cache.
unfoldable pub commit_keyset : Ledger → Block → Keyset → Result Ledger
commit_keyset l b ks = do
  let (commit, prev_balance) = prepare_block_write l b
  written ← commit_block_write (record commit { put_keyset = some ks }) prev_balance l
  ok (record written { keysets = insert b.account ks written.keysets })

abbrev is_unopened : Option AccountChain → Bool
is_unopened none = true
is_unopened (some chain) = false

unfoldable pub validate_and_add_multisig_open : Host → Ledger → Block → Result Ledger
validate_and_add_multisig_open host l b = do
  ks ← some_or b.ms_keyset "multisig_open must include a keyset"
  validate_keyset (some ks)
  expected ← host.derive_multisig_address ks
  require (str_eq b.account expected) "multisig_open account mismatch: got %s, want %s"
  require (is_unopened (get_account_chain_overlay l b.account))
      "multisig_open: account already exists"
  require (str_eq b.previous "0") "multisig_open must have previous=0"
  require (b.balance == 0) "multisig_open balance must be 0, got %d"
  commit_keyset l b ks

unfoldable pub validate_and_add_multisig_update : Ledger → Block → Result Ledger
validate_and_add_multisig_update l b = do
  ks ← some_or b.ms_keyset "multisig_update must include a keyset"
  validate_keyset (some ks)
  old ← some_or (get_keyset_overlay l b.account) "multisig_update: account is not multisig"
  chain ← some_or (get_account_chain_overlay l b.account) "multisig_update: account not found"
  check_extends b chain
  require (b.balance == get_asset_balance_overlay l b.account b.asset)
      "multisig_update balance mismatch: expected %d, got %d"
  commit_keyset l b ks
