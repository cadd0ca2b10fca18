-- ===== src/Tests/Admission.antt =====
-- A burn that a node admits, and what may be spent of what is final.
use xe.Prelude.{some, ◌<◌, ◌≡◌, ◌≤◌, refl, ok, err, true, false, none, [], ◌∷◌, arith}
use xe.Prelude.Int.{pos}
use xe.Map.{lookup}
use xe.Types.{Block, is_valid_asset, frontier}
use xe.Hex.{decode_hex}
use xe.Memo.{validate_memo}
use xe.Multisig.{decode_hash, verify_hex_signature, decode_public_key, decode_signature}
use xe.Store.{apply_commit}
use xe.Ledger.Staged.{detect_conflict_sibling}
use xe.Ledger.{
  get_account_chain_overlay, overlay_chain, get_asset_balance_overlay, get_asset_balance,
  overlay_delegation_rep,
}
use xe.Ledger.Commit.{
  prepare_block_write, commit_block_write, commit_plain, with_delegation, effective_rep,
}
use xe.Ledger.Transfer.{
  check_timestamp, check_extends, check_debit, validate_and_add_burn, burn_checks,
}
use xe.Ledger.{Ledger, number_at}
use xe.Ledger.Weights.{RepMode, RepresentativeConfig, sum_all, total_delegated_weight}
use xe.Ledger.Weights.Open.{eligible_weight_positive}
use xe.Ledger.Invariant.{IsSound}
use xe.Ledger.Height.{spendable_balances, chain_of, final_height}
use xe.Ledger.Height.Spendable.{final_balance, spendable_bound}
use xe.Ledger.Credential.{
  verify_block, validate_pub_key_declaration, verify_block_credential, verify_block_signature_with,
  single_credential, get_account_key, Host,
}
use xe.Ledger.Admission.{
  to_lower, check_pow, check_window, add_unstored, add_new, add_to_chain, chain_checks,
  has_conflict, asset_checks, dispatch_validate_and_add, handle, add_admitted, entry_checks,
  admitted_block, normalize_block_hex, Node, add_block,
}
use xe.Ledger.Admission.Refused.{Fills, refused_keeps}
use xe.Ledger.Admission.Funds.{KeepsFunds-IsSound}
use xe.Ledger.Admission.Outcome.{Outcome, add_block-Outcome, add_block-IsSound}
use xe.Tests.Fixtures.{config, genesis_ledger, burn_block, genesis_block}
use xe.Tests.Transfers.{genesis-IsSound}

abbrev host : Host
host = record {
  verify = λ key message signature. true;
  hash_block = λ b. ok b.hash;
  derive_address = λ key. ok "alice";
  derive_multisig_address = λ ks. ok "alice";
  pow_hash = λ nonce hash. 7;
  difficulty = 2;
  timestamp_window = pos 0;
  genesis = ok genesis_block;
}

abbrev pub node : Node
node = record {
  host = host;
  config = config;
  representatives = none;
  genesis_supply = 50;
  busy = false;
}

-- Alice's key is known, and her first block is final.
abbrev pub known_ledger : Ledger
known_ledger = record genesis_ledger {
  store = record genesis_ledger.store { final_height = ("alice", 1) ∷ [] };
  account_keys = ("alice", "00000000000000000000000000000000000000000000000000000000000000aa") ∷ [];
}

known-IsSound : IsSound known_ledger
known-IsSound =
    KeepsFunds-IsSound {l = genesis_ledger}
      (record { blocks = refl; chains = refl; pending = refl; balances = refl; cascade = refl })
      genesis-IsSound

abbrev pub signed_burn : Block
signed_burn = record burn_block {
  hash = "00000000000000000000000000000000000000000000000000000000000000bb";
  signature =
      "00000000000000000000000000000000000000000000000000000000000000dd00000000000000000000000000000000000000000000000000000000000000ee";
}

burn_admitted : (add_block node known_ledger signed_burn false).1 ≡ ok tt
unfolding add_block add_admitted entry_checks admitted_block normalize_block_hex verify_block
    to_lower validate_pub_key_declaration check_pow decode_hex check_window add_unstored lookup
    verify_block_credential verify_block_signature_with single_credential get_account_key
    decode_hash verify_hex_signature decode_public_key decode_signature detect_conflict_sibling
    add_new add_to_chain chain_checks has_conflict asset_checks is_valid_asset
    dispatch_validate_and_add handle validate_and_add_burn burn_checks check_extends check_timestamp
    frontier get_account_chain_overlay overlay_chain get_asset_balance_overlay get_asset_balance
    check_debit prepare_block_write commit_block_write commit_plain apply_commit with_delegation
    effective_rep overlay_delegation_rep validate_memo
burn_admitted = refl

add_block-Outcome_example :
    Outcome config known_ledger (add_block node known_ledger signed_burn false).0
add_block-Outcome_example =
    add_block-Outcome node known_ledger signed_burn false (omega arith) (omega arith) refl

add_block-IsSound_example : IsSound (add_block node known_ledger signed_burn false).0
add_block-IsSound_example =
    add_block-IsSound node known_ledger signed_burn false (omega arith) (omega arith) refl
      known-IsSound

-- The hash is too short to sign.
short_hash :
    (add_block node known_ledger burn_block false).1 ≡ err "invalid hash length: got %d, want 32"
unfolding add_block add_admitted entry_checks admitted_block normalize_block_hex verify_block
    to_lower validate_pub_key_declaration check_pow decode_hex check_window add_unstored lookup
    verify_block_credential verify_block_signature_with single_credential get_account_key
    decode_hash verify_hex_signature decode_public_key decode_signature detect_conflict_sibling
    add_new add_to_chain chain_checks has_conflict asset_checks is_valid_asset
    dispatch_validate_and_add handle
short_hash = refl

refused_keeps_example : Fills known_ledger (add_block node known_ledger burn_block false).0
refused_keeps_example = refused_keeps node known_ledger burn_block false _ refl short_hash

spendable_bound_example :
    number_at "XE" (spendable_balances known_ledger "alice")
    ≤ final_balance (final_height known_ledger "alice") "XE" 0 (chain_of known_ledger "alice")
spendable_bound_example = spendable_bound known_ledger "alice" "XE"

-- The published policy names a representative that has no weight.
abbrev policy : RepresentativeConfig
policy = record { mode = RepMode.allowlist_mode; addresses = "carol" ∷ [] }

abbrev pub weighted_ledger : Ledger
weighted_ledger = record genesis_ledger { weights = ("alice", 50) ∷ [] }

eligible_weight_positive_example : 0 < total_delegated_weight (some policy) weighted_ledger
unfolding sum_all
eligible_weight_positive_example =
    eligible_weight_positive (some policy) weighted_ledger (omega arith)
