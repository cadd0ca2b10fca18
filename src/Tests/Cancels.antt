-- ===== src/Tests/Cancels.antt =====
-- A lease that its consumer cancels, before and after its provider accepts it.
use xe.Prelude.{[], ◌∷◌, false, Result, ◌≡◌, ◌+◌, refl, ok, err, arith}
use xe.Types.{Block, BlockType, LeaseState}
use xe.Types.{frontier}
use xe.Store.{apply_commit, check_lease}
use xe.Ledger.{
  get_account_chain_overlay, overlay_chain, get_asset_balance_overlay, set_asset_balance,
  overlay_delegation_rep, get_pending_send_overlay, get_lease_overlay,
}
use xe.Ledger.Commit.{
  prepare_block_write, commit_block_write, commit_plain, with_delegation, effective_rep,
}
use xe.Ledger.Transfer.{check_timestamp, check_extends}
use xe.Ledger.Contract.Cancel.{cancel_commit, cancelled_block, make_cancellable}
use xe.Map.{lookup, insert, delete}
use xe.Ledger.{Ledger, get_asset_balance}
use xe.Ledger.Invariant.{IsSound}
use xe.Ledger.Supply.{supply}
use xe.Ledger.Undo.Chain.{shortened}
use xe.Ledger.Contract.Cancel.{
  validate_and_add_lease_cancel, cancel_opened, cancel_written, refund_checks,
}
use xe.Ledger.Contract.Cancel.{resolve_cancel_wins_over_accept, find_accept}
use xe.Ledger.Undo.{
  undo_block_apply, build_block_undo, reversal_of, prior_lease, parent_balance, lease_event,
}
use xe.Store.{apply_undo, undo_pending, undo_account, update_pending, delete_pending}
use xe.Ledger.Commit.{apply_mem}
use xe.Ledger.Contract.Refund.{refused_cancel_takes_back, cancel-supply}
use xe.Tests.Fixtures.{
  accept_block, lease_record, leased_ledger, lease_block, block, accepted, genesis_block,
}

abbrev open_lease : Ledger
open_lease = leased_ledger LeaseState.created

open_lease-IsSound : IsSound open_lease
unfolding lookup get_asset_balance
open_lease-IsSound = record {
  idle = refl;
  unique = (refl, tt);
  bounded = λ k s. ground arith;
  unopened = λ k s e. ground arith;
  sent = λ h e. ground arith;
  amounts = λ h ps e. ground arith;
}

abbrev cancel_block : Block
cancel_block = record (block BlockType.lease_cancel "bob" "l1" "x1") {
  source = "l1";
  balance = 30_000;
}

cancelled_ok :
    cancel_written open_lease cancel_block lease_block
    ≡ ok (accepted (cancel_written open_lease cancel_block lease_block))
unfolding cancel_written refund_checks get_pending_send_overlay lookup get_account_chain_overlay
    overlay_chain check_extends frontier get_asset_balance_overlay get_asset_balance
    commit_block_write commit_plain apply_commit with_delegation effective_rep
    overlay_delegation_rep cancel_commit prepare_block_write check_timestamp get_lease_overlay
    check_lease cancel_opened cancelled_block make_cancellable
cancelled_ok = refl

cancel-supply_example :
    supply "XUSD" (accepted (cancel_written open_lease cancel_block lease_block)) + 30_000
    ≡ supply "XUSD" open_lease + 30_000
unfolding lookup get_asset_balance
cancel-supply_example =
    cancel-supply open_lease cancel_block open_lease-IsSound lease_block _ "XUSD" refl refl refl
      refl (omega arith) cancelled_ok

-- The same lease after alice's accept, the last block of her chain.
abbrev running_lease : Ledger
running_lease =
    let leased = leased_ledger LeaseState.accepted in
    record leased {
      store = record leased.store {
        chains = ("alice", genesis_block ∷ accept_block ∷ []) ∷ ("bob", lease_block ∷ []) ∷ [];
      };
    }

-- The consumer states the wrong balance.
abbrev wrong_block : Block
wrong_block = record cancel_block { balance = 1 }

abbrev opened_of : Result (Block × Ledger) → Ledger
opened_of (ok (b, l)) = l
opened_of (err e) = running_lease

abbrev opened : Ledger
opened = opened_of (cancel_opened false running_lease wrong_block)

opened_ok : cancel_opened false running_lease wrong_block ≡ ok (lease_block, opened)
unfolding cancel_opened cancelled_block make_cancellable lookup get_lease_overlay
    resolve_cancel_wins_over_accept find_accept undo_block_apply build_block_undo reversal_of
    prior_lease
opened_ok = refl

wrong_refund : refund_checks opened wrong_block 30_000 ≡ err "balance mismatch: expected %d, got %d"
unfolding cancel_opened cancelled_block make_cancellable lookup get_lease_overlay
    resolve_cancel_wins_over_accept find_accept undo_block_apply build_block_undo reversal_of
    prior_lease refund_checks get_pending_send_overlay get_account_chain_overlay overlay_chain
    check_extends check_timestamp frontier get_asset_balance_overlay get_asset_balance apply_undo
    undo_pending undo_account apply_mem parent_balance lease_event update_pending delete_pending
    insert delete set_asset_balance
wrong_refund = refl

refused_cancel_example :
    ((validate_and_add_lease_cancel false running_lease wrong_block).1
      ≡ err "balance mismatch: expected %d, got %d")
    × ((validate_and_add_lease_cancel false running_lease wrong_block).0.store.chains
        ≡ shortened "alice" (genesis_block ∷ []) running_lease.store.chains)
unfolding lookup get_lease_overlay
refused_cancel_example =
    refused_cancel_takes_back false running_lease wrong_block lease_block opened
      (lease_record LeaseState.accepted) _ opened_ok refl refl refl wrong_refund
