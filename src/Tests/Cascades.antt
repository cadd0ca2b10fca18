-- ===== src/Tests/Cascades.antt =====
-- A send that bob has received is replaced, and a promotion that is refused.
use xe.Prelude.{some, ◌≡◌, refl, ok, err, [], ◌∷◌, arith, List, Result, All}
use xe.Map.{lookup, insert}
use xe.Types.{Block, frontier, is_valid_asset}
use xe.Hex.{decode_hex}
use xe.Memo.{validate_memo}
use xe.Multisig.{decode_hash, verify_hex_signature, decode_public_key, decode_signature}
use xe.Bytes.{drop}
use xe.Store.{new_mem_store}
use xe.Ledger.{
  Ledger, get_account_chain_overlay, overlay_chain, get_asset_balance_overlay, get_asset_balance,
  asset_balance_on_chain, balance_on_chain_from,
}
use xe.Ledger.Transfer.{
  check_timestamp, check_extends, check_debit, validate_and_add_burn, burn_checks,
}
use xe.Ledger.Undo.{build_block_undo, reversal_of}
use xe.Ledger.Credential.{
  verify_block, validate_pub_key_declaration, verify_block_credential, verify_block_signature_with,
  single_credential, get_account_key,
}
use xe.Ledger.Admission.{dispatch_validate_and_add, handle}
use xe.Ledger.Admission.Refused.{Fills}
use xe.Ledger.Cascade.{
  CascadePlan, CascadeStep, receive_index, plan_blocks, plan_rollback_from, plan_rollback_of_send,
  plan_cascade,
}
use xe.Ledger.Cascade.Ends.{plan_cascade-ends}
use xe.Ledger.Cascade.Swap.{
  plan_swap, swap_block, swap_block_locked, promote, build_cascade, add_undo,
}
use xe.Ledger.Cascade.Swap.Above.{IsAbove, plan_swap-IsAbove}
use xe.Ledger.Cascade.Swap.Kept.{refused_promotion_keeps}
use xe.Tests.Fixtures.{empty_ledger, mint_block, send_block, receive_block}
use xe.Tests.Admission.{node, known_ledger, signed_burn}

abbrev received_ledger : Ledger
received_ledger = record empty_ledger {
  store = record new_mem_store {
    blocks = ("m1", mint_block) ∷ ("s1", send_block) ∷ ("r1", receive_block) ∷ [];
    chains = ("minter", mint_block ∷ send_block ∷ []) ∷ ("bob", receive_block ∷ []) ∷ [];
    final_height = ("minter", 1) ∷ [];
  };
}

plan_cascade-ends_example :
    (answer : Result CascadePlan) × (plan_cascade received_ledger "s1" [] ≡ some answer)
plan_cascade-ends_example = plan_cascade-ends received_ledger "s1" []

-- Bob's receive goes before the send.
abbrev both_steps : List CascadeStep
both_steps = ("bob", receive_block) ∷ ("minter", send_block) ∷ []

both_planned : plan_swap received_ledger "minter" 1 send_block ≡ some (ok both_steps)
unfolding plan_swap plan_blocks plan_cascade plan_rollback_of_send plan_rollback_from receive_index
    lookup drop
both_planned = refl

plan_swap-IsAbove_example : All (IsAbove received_ledger) both_steps
unfolding lookup
plan_swap-IsAbove_example =
    plan_swap-IsAbove received_ledger "minter" 1 send_block both_steps refl (omega arith)
      both_planned

-- The winner of a fork over alice's burn states a wrong balance.
abbrev burned_ledger : Ledger
burned_ledger = record known_ledger {
  store = record known_ledger.store {
    chains = ("alice", record signed_burn { hash = "g1"; previous = "0" } ∷ signed_burn ∷ []) ∷ [];
  };
}

abbrev wrong_burn : Block
wrong_burn = record signed_burn {
  hash = "00000000000000000000000000000000000000000000000000000000000000cc";
  balance = 31;
}

wrong_refused :
    swap_block node burned_ledger "alice" signed_burn.hash wrong_burn.hash wrong_burn
    ≡ some (burned_ledger, err "balance mismatch: expected %d, got %d")
unfolding swap_block verify_block validate_pub_key_declaration swap_block_locked lookup plan_swap
    plan_blocks drop promote build_cascade build_block_undo reversal_of add_undo insert
    dispatch_validate_and_add verify_block_credential single_credential get_account_key
    verify_block_signature_with decode_hash decode_hex verify_hex_signature decode_public_key
    decode_signature handle validate_and_add_burn burn_checks check_extends check_timestamp frontier
    get_account_chain_overlay overlay_chain get_asset_balance_overlay check_debit
    asset_balance_on_chain balance_on_chain_from validate_memo is_valid_asset get_asset_balance
wrong_refused = refl

refused_promotion_keeps_example : Fills burned_ledger burned_ledger
refused_promotion_keeps_example =
    refused_promotion_keeps node burned_ledger burned_ledger "alice" signed_burn.hash
      wrong_burn.hash wrong_burn _ refl refl wrong_refused
