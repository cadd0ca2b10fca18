-- ===== src/Tests/Undo.antt =====
-- The balance cache over the first blocks of a ledger, and a send that is taken back.
use xe.Prelude.{[], ◌∷◌, ◌≡◌, refl, ok, arith}
use xe.Map.{lookup, insert}
use xe.Types.{is_valid_asset}
use xe.Store.{apply_commit, commit_pending, commit_account, commit_leases}
use xe.Ledger.{
  get_account_chain_overlay, overlay_chain, get_asset_balance_overlay, overlay_delegation_rep,
  set_asset_balance, xusd_balance_on_chain, xusd_balance_from,
}
use xe.Ledger.Commit.{
  prepare_block_write, commit_block_write, commit_plain, with_delegation, effective_rep,
  cache_block, update_delegation,
}
use xe.Ledger.Transfer.{
  check_timestamp, check_extends, check_credit, equal_fold, is_minter, mint_checks,
  validate_and_add_mint,
}
use xe.Ledger.{Ledger, get_asset_balance, asset_balance_on_chain, balance_on_chain_from}
use xe.Ledger.Transfer.Run.{Run, Step}
use xe.Ledger.Transfer.Cached.{IsCached, Run-IsCached}
use xe.Ledger.Undo.{undo_block_apply}
use xe.Ledger.Undo.Send.{Restored, send-undo}
use xe.Tests.Fixtures.{config, genesis_ledger, mint_block, send_block}
use xe.Tests.Transfers.{
  genesis-IsSound, mint_ok, mint-IsNew, after_mint, after_mint-IsSound, send_ok, send-IsNew,
  history, after_burn, after_send,
}

genesis-IsCached : IsCached genesis_ledger
unfolding lookup get_asset_balance asset_balance_on_chain balance_on_chain_from
genesis-IsCached = record { agrees = λ k s. ground arith }

Run-IsCached_example : IsCached after_burn
Run-IsCached_example = Run-IsCached config genesis-IsSound genesis-IsCached history

after_mint-IsCached : IsCached after_mint
after_mint-IsCached =
    Run-IsCached config genesis-IsSound genesis-IsCached
      (Run.next Run.here (Step.mints mint_block mint-IsNew mint_ok))

send-undo_example :
    (l : Ledger) × (undo_block_apply after_send "minter" send_block ≡ ok l) × Restored after_mint l
unfolding validate_and_add_mint is_minter equal_fold mint_checks check_extends check_credit
    check_timestamp get_account_chain_overlay overlay_chain lookup prepare_block_write
    get_asset_balance_overlay commit_block_write commit_plain with_delegation effective_rep
    overlay_delegation_rep apply_commit cache_block update_delegation commit_pending commit_account
    insert is_valid_asset commit_leases asset_balance_on_chain balance_on_chain_from
    xusd_balance_on_chain xusd_balance_from set_asset_balance
send-undo_example =
    send-undo after_mint send_block (mint_block ∷ []) after_mint-IsSound send-IsNew
      after_mint-IsCached refl refl refl refl refl send_ok
