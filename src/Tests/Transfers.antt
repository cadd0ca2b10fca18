-- ===== src/Tests/Transfers.antt =====
-- The first blocks of a ledger, and the theorems on sends, receives, burns and mints over them.
use xe.Prelude.{◌+◌, ◌<◌, ◌≡◌, refl, ok, arith, true, some, none}
use xe.Map.{lookup, insert, delete}
use xe.Types.{is_valid_asset, frontier}
use xe.Memo.{validate_memo, valid_utf8, valid_from, lead, has_disallowed, is_disallowed}
use xe.Store.{
  apply_commit, commit_pending, commit_account, commit_leases, put_pending, delete_pending,
  update_pending,
}
use xe.Ledger.{
  Ledger, get_asset_balance, set_asset_balance, overlay_chain, get_account_chain_overlay,
  get_pending_send_overlay, get_lease_overlay, get_asset_balance_overlay, overlay_delegation_rep,
}
use xe.Ledger.Commit.{
  prepare_block_write, commit_block_write, commit_plain, with_delegation, effective_rep,
  cache_block, update_delegation,
}
use xe.Ledger.Transfer.{
  check_timestamp, check_extends, check_debit, check_credit, send_checks, validate_and_add_send,
  receive_checks, is_live_lease_escrow, get_block_or_staged, is_contested, validate_and_add_receive,
  equal_fold, is_minter, mint_checks, validate_and_add_mint, validate_and_add_burn, burn_checks,
}
use xe.Ledger.Invariant.{IsSound, IsNew}
use xe.Ledger.Transfer.Sound.{mint-IsSound, send-IsSound}
use xe.Ledger.Transfer.Run.{Run, Step, Run-supply, Run-IsSound, minted, burned}
use xe.Ledger.Supply.{supply, of_asset}
use xe.Ledger.Transfer.Accepted.{Written, Debited, Credited, send_accepted, receive_accepted}
use xe.Ledger.Transfer.{pending_of}
use xe.Ledger.{asset_or_xe}
use xe.Store.{is_set}
use xe.Types.{AccountChain, PendingSend}
use xe.Ledger.Transfer.Conserve.{mint-supply}
use xe.Ledger.Transfer.Once.{receive_once}
use xe.Tests.Fixtures.{
  config, burn_block, genesis_ledger, mint_block, send_block, receive_block, accepted,
}

pub genesis-IsSound : IsSound genesis_ledger
unfolding lookup get_asset_balance
genesis-IsSound = record {
  idle = refl;
  unique = tt;
  bounded = λ k s. ground arith;
  unopened = λ k s e. ground arith;
  sent = λ h e. refl;
  amounts = λ h ps e. cc;
}

abbrev pub after_mint : Ledger
after_mint = accepted (validate_and_add_mint config genesis_ledger mint_block)

pub mint_ok : validate_and_add_mint config genesis_ledger mint_block ≡ ok after_mint
unfolding validate_and_add_mint is_minter equal_fold mint_checks check_extends check_credit
    check_timestamp get_account_chain_overlay overlay_chain lookup prepare_block_write
    get_asset_balance_overlay commit_block_write commit_plain with_delegation effective_rep
    overlay_delegation_rep apply_commit
mint_ok = refl

pub mint-IsNew : IsNew genesis_ledger mint_block
unfolding lookup is_valid_asset
mint-IsNew = record { balance = omega arith; amount = omega arith; asset = refl; fresh = refl }

pub after_mint-IsSound : IsSound after_mint
after_mint-IsSound =
    mint-IsSound genesis_ledger mint_block genesis-IsSound mint-IsNew config mint_ok

abbrev pub after_send : Ledger
after_send = accepted (validate_and_add_send after_mint send_block)

pub send_ok : validate_and_add_send after_mint send_block ≡ ok after_send
unfolding validate_and_add_mint is_minter equal_fold mint_checks check_extends check_credit
    check_timestamp get_account_chain_overlay overlay_chain lookup prepare_block_write
    get_asset_balance_overlay commit_block_write commit_plain with_delegation effective_rep
    overlay_delegation_rep apply_commit validate_and_add_send send_checks check_debit validate_memo
    valid_utf8 valid_from lead has_disallowed is_disallowed cache_block update_delegation
    commit_pending commit_account insert frontier set_asset_balance get_asset_balance commit_leases
    delete
send_ok = refl

pub send-IsNew : IsNew after_mint send_block
unfolding validate_and_add_mint is_minter equal_fold mint_checks check_extends check_credit
    check_timestamp get_account_chain_overlay overlay_chain lookup prepare_block_write
    get_asset_balance_overlay commit_block_write commit_plain with_delegation effective_rep
    overlay_delegation_rep apply_commit cache_block update_delegation commit_pending commit_account
    insert is_valid_asset
send-IsNew = record { balance = omega arith; amount = omega arith; asset = refl; fresh = refl }

after_send-IsSound : IsSound after_send
after_send-IsSound = send-IsSound after_mint send_block after_mint-IsSound send-IsNew send_ok

abbrev after_receive : Ledger
after_receive = accepted (validate_and_add_receive after_send receive_block)

receive_ok : validate_and_add_receive after_send receive_block ≡ ok after_receive
unfolding validate_and_add_mint is_minter equal_fold mint_checks check_extends check_credit
    check_timestamp get_account_chain_overlay overlay_chain lookup prepare_block_write
    get_asset_balance_overlay commit_block_write commit_plain with_delegation effective_rep
    overlay_delegation_rep apply_commit validate_and_add_send send_checks check_debit validate_memo
    valid_utf8 valid_from lead has_disallowed is_disallowed cache_block update_delegation
    commit_pending commit_account insert frontier set_asset_balance get_asset_balance commit_leases
    delete validate_and_add_receive get_pending_send_overlay is_live_lease_escrow get_lease_overlay
    is_contested get_block_or_staged receive_checks put_pending delete_pending update_pending
    validate_and_add_burn burn_checks is_valid_asset
receive_ok = refl

receive-IsNew : IsNew after_send receive_block
unfolding validate_and_add_mint is_minter equal_fold mint_checks check_extends check_credit
    check_timestamp get_account_chain_overlay overlay_chain lookup prepare_block_write
    get_asset_balance_overlay commit_block_write commit_plain with_delegation effective_rep
    overlay_delegation_rep apply_commit validate_and_add_send send_checks check_debit validate_memo
    valid_utf8 valid_from lead has_disallowed is_disallowed cache_block update_delegation
    commit_pending commit_account insert frontier set_asset_balance get_asset_balance commit_leases
    delete validate_and_add_receive get_pending_send_overlay is_live_lease_escrow get_lease_overlay
    is_contested get_block_or_staged receive_checks put_pending delete_pending update_pending
    validate_and_add_burn burn_checks is_valid_asset
receive-IsNew = record { balance = omega arith; amount = omega arith; asset = refl; fresh = refl }

abbrev pub after_burn : Ledger
after_burn = accepted (validate_and_add_burn after_receive burn_block)

burn_ok : validate_and_add_burn after_receive burn_block ≡ ok after_burn
unfolding validate_and_add_mint is_minter equal_fold mint_checks check_extends check_credit
    check_timestamp get_account_chain_overlay overlay_chain lookup prepare_block_write
    get_asset_balance_overlay commit_block_write commit_plain with_delegation effective_rep
    overlay_delegation_rep apply_commit validate_and_add_send send_checks check_debit validate_memo
    valid_utf8 valid_from lead has_disallowed is_disallowed cache_block update_delegation
    commit_pending commit_account insert frontier set_asset_balance get_asset_balance commit_leases
    delete validate_and_add_receive get_pending_send_overlay is_live_lease_escrow get_lease_overlay
    is_contested get_block_or_staged receive_checks put_pending delete_pending update_pending
    validate_and_add_burn burn_checks is_valid_asset
burn_ok = refl

burn-IsNew : IsNew after_receive burn_block
unfolding validate_and_add_mint is_minter equal_fold mint_checks check_extends check_credit
    check_timestamp get_account_chain_overlay overlay_chain lookup prepare_block_write
    get_asset_balance_overlay commit_block_write commit_plain with_delegation effective_rep
    overlay_delegation_rep apply_commit validate_and_add_send send_checks check_debit validate_memo
    valid_utf8 valid_from lead has_disallowed is_disallowed cache_block update_delegation
    commit_pending commit_account insert frontier set_asset_balance get_asset_balance commit_leases
    delete validate_and_add_receive get_pending_send_overlay is_live_lease_escrow get_lease_overlay
    is_contested get_block_or_staged receive_checks put_pending delete_pending update_pending
    validate_and_add_burn burn_checks is_valid_asset
burn-IsNew = record { balance = omega arith; amount = omega arith; asset = refl; fresh = refl }

pub history : Run config genesis_ledger after_burn
history =
    Run.next
      (Run.next
        (Run.next (Run.next Run.here (Step.mints mint_block mint-IsNew mint_ok))
          (Step.sends send_block send-IsNew send_ok))
        (Step.receives receive_block receive-IsNew receive_ok))
      (Step.burns burn_block burn-IsNew burn_ok)

Run-supply_example :
    supply "XE" after_burn + burned config "XE" history
    ≡ supply "XE" genesis_ledger + minted config "XE" history
Run-supply_example = Run-supply config "XE" genesis-IsSound history

Run-IsSound_example : IsSound after_burn
Run-IsSound_example = Run-IsSound config genesis-IsSound history

mint-supply_example :
    (supply "XUSD" after_mint ≡ supply "XUSD" genesis_ledger + of_asset "XUSD" "XUSD" 100)
    × (is_minter config "minter" ≡ true)
mint-supply_example =
    mint-supply genesis_ledger mint_block genesis-IsSound mint-IsNew config "XUSD" mint_ok

send_accepted_example :
    (chain : AccountChain) × (lookup "minter" after_mint.store.chains ≡ some chain)
    × Debited after_mint send_block chain
    × (0 < 30)
    × Written after_mint send_block (some (pending_of send_block "XUSD")) "" after_send
send_accepted_example = send_accepted after_mint send_block after_mint-IsSound.idle send_ok

receive_accepted_example :
    (ps : PendingSend) × (lookup "s1" after_send.store.pending ≡ some ps)
    × (ps.destination ≡ "bob")
    × ("XUSD" ≡ asset_or_xe ps.asset)
    × (is_set "s1" ≡ true)
    × Credited after_send receive_block ps.amount (lookup "bob" after_send.store.chains)
    × Written after_send receive_block none "s1" after_receive
receive_accepted_example =
    receive_accepted after_send receive_block after_send-IsSound.idle receive_ok

after_receipt : Run config after_receive after_burn
after_receipt = Run.next Run.here (Step.burns burn_block burn-IsNew burn_ok)

receive_once_example : ¬ (
    validate_and_add_receive after_burn (record receive_block { hash = "r2" }) ≡ ok genesis_ledger)
receive_once_example =
    receive_once after_send receive_block after_send-IsSound receive-IsNew config
      (record receive_block { hash = "r2" }) receive_ok after_receipt refl
