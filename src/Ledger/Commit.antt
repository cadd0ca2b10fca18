-- ===== src/Ledger/Commit.antt =====
-- Writing an accepted block (core/ledger.go: prepareBlockWrite, commitBlockWrite,
-- updateDelegation), with the in-memory half of the undos of a cascade (core/rollback.go, `apply`).
use xe.Prelude.{
  ℕ, ◌+◌, ◌-◌, String, Bool, true, false, none, some, List, [], ◌∷◌, ◌++◌, Result, ok, ◌>>=◌,
  when_some, ltb, str_eq, if◌then◌else◌, suc,
}
use xe.Map.{Map, lookup, insert, delete}
use xe.Types.{Block, LeaseState, BlockCommit}
use xe.Reputation
use xe.Store.{apply_commit, commit_cascade, is_set}
use xe.Ledger.{
  Ledger, CascadeBuild, MemApply, number_at, text_at, asset_or_xe, get_asset_balance,
  set_asset_balance, add_asset_balance, sub_asset_balance, get_account_chain_overlay,
  get_asset_balance_overlay, overlay_delegation_rep,
}

-- The commit of a block, with nothing set beyond what every block writes, and the XE balance
-- before it.
unfoldable pub prepare_block_write : Ledger → Block → BlockCommit × ℕ
prepare_block_write l b = (
  record {
    block = b;
    account = b.account;
    chain = when_some (get_account_chain_overlay l b.account) [] (λ ch. ch) ++ b ∷ [];
    frontier_hash = b.hash;
    add_pending = none;
    delete_pending_id = "";
    put_lease = none;
    settle_lease_hash = "";
    cancel_lease_hash = "";
    unfulfill_lease_hash = "";
    delegation_rep = "";
    delete_delegation = false;
    put_keyset = none;
    put_account_key = b.pub_key;
    expect_lease_hash = "";
    expect_lease_state = LeaseState.unset;
    asset_credit = none;
    top_up_pending_id = "";
    top_up_pending_amount = 0;
    expect_lease_effective_duration_secs = 0;
  },
  get_asset_balance_overlay l b.account "XE",
)

-- The weights with `amount` taken from `rep`: an underflow is clamped to 0, and reported.
unfoldable pub sub_weight : String → ℕ → Map ℕ → Map ℕ × Bool
sub_weight rep amount ws =
    (insert rep (number_at rep ws - amount) ws, ltb (number_at rep ws) amount)

unfoldable pub add_weight : String → ℕ → Map ℕ → Map ℕ
add_weight rep amount ws = insert rep (number_at rep ws + amount) ws

-- `updateDelegation`, after the block's balance has been cached.
unfoldable pub update_delegation : String → ℕ → Block → Ledger → Ledger
update_delegation account prev_balance b l =
    let new_xe = get_asset_balance l.asset_balances account "XE" in
    let prev_xe = if str_eq (asset_or_xe b.asset) "XE" then prev_balance else new_xe in
    let old_rep = text_at account l.delegation in
    let effective = if is_set b.representative then b.representative else old_rep in
    let (taken, under) =
      if is_set old_rep then sub_weight old_rep prev_xe l.weights else (l.weights, false) in
    record l {
      delegation_underflow = if under then suc l.delegation_underflow else l.delegation_underflow;
      delegation =
          if is_set effective
          then insert account effective l.delegation
          else delete account l.delegation;
      weights = if is_set effective then add_weight effective new_xe taken else taken;
    }

-- The in-memory half of the undo of one block.
unfoldable pub apply_mem : MemApply → Ledger → Ledger
apply_mem a l =
    let balances =
      if a.delete_account
      then delete a.account l.asset_balances
      else set_asset_balance a.account a.asset a.parent_bal l.asset_balances in
    let cur_rep = text_at a.account l.delegation in
    let taken =
      if is_set cur_rep
      then when_some (lookup cur_rep l.weights) l.weights
          (λ w. insert cur_rep (w - a.xe_before) l.weights)
      else l.weights in
    record l {
      keysets =
          if is_set a.delete_keyset_account
          then delete a.delete_keyset_account l.keysets
          else l.keysets;
      account_keys =
          if is_set a.delete_account_key_account
          then delete a.delete_account_key_account l.account_keys
          else l.account_keys;
      asset_balances =
          when_some a.asset_debit balances
            (λ d. sub_asset_balance d.account d.asset d.amount balances);
      weights = if is_set a.prev_rep then add_weight a.prev_rep a.xe_after taken else taken;
      delegation =
          if is_set a.prev_rep
          then insert a.account a.prev_rep l.delegation
          else delete a.account l.delegation;
      reputation = when_some a.rep_revert l.reputation (λ ev. Reputation.revert ev l.reputation);
    }

unfoldable pub apply_mems : List MemApply → Ledger → Ledger
apply_mems [] l = l
apply_mems (a ∷ rest) l = apply_mems rest (apply_mem a l)

-- The caches after the store has taken a commit.
unfoldable pub cache_block : BlockCommit → ℕ → Ledger → Ledger
cache_block c prev_balance l =
    let set =
      set_asset_balance c.account (asset_or_xe c.block.asset) c.block.balance l.asset_balances in
    update_delegation c.account prev_balance c.block (record l {
      block_count = suc l.block_count;
      asset_balances =
          when_some c.asset_credit set (λ d. add_asset_balance d.account d.asset d.amount set);
      account_keys =
          if is_set c.put_account_key
          then insert c.account c.put_account_key l.account_keys
          else l.account_keys;
    })

-- The representative that a block leaves the account with.
unfoldable pub effective_rep : Ledger → BlockCommit → String
effective_rep l c =
    let old_rep =
      when_some (overlay_delegation_rep l c.account) (text_at c.account l.delegation) (λ r. r) in
    if is_set c.block.representative then c.block.representative else old_rep

-- `c` with the representative that it persists.
unfoldable pub with_delegation : Ledger → BlockCommit → BlockCommit
with_delegation l c =
    if is_set (effective_rep l c)
    then record c { delegation_rep = effective_rep l c }
    else record c { delete_delegation = true }

-- The write of a block that is not the winner of the active cascade.
unfoldable pub commit_plain : BlockCommit → ℕ → Ledger → Result Ledger
commit_plain c prev_balance l = do
  s ← apply_commit c l.store
  ok (cache_block c prev_balance (record l { store = s }))

-- The write of the cascade's winner: the undos and the block as one write of the store.
unfoldable pub commit_winner : CascadeBuild → BlockCommit → ℕ → Ledger → Result Ledger
commit_winner cb c prev_balance l = do
  s ← commit_cascade cb.undos c l.store
  let undone = apply_mems cb.mem_applies (record l { store = s })
  ok (cache_block c prev_balance (record undone { active_cascade = none }))

unfoldable pub commit_block_write : BlockCommit → ℕ → Ledger → Result Ledger
commit_block_write c prev_balance l = elim l.active_cascade [
  | none ↦ commit_plain (with_delegation l c) prev_balance l
  | some cb ↦
      if str_eq cb.winner_hash c.block.hash
      then commit_winner cb (with_delegation l c) prev_balance l
      else commit_plain (with_delegation l c) prev_balance l
]
