-- ===== src/Ledger/Height.antt =====
-- Heights on a chain and what is final (core/ledger.go: GetAssetBalanceAtBlock, GetBlockHeight,
-- FinalHeight, IsFinalized; core/spendable.go: FinalizedFrontier, SpendableBalances).
pub mod Spendable
use xe.Prelude.{
  ℕ, zero, suc, ◌+◌, ◌-◌, String, Bool, true, false, Option, none, some, List, [], ◌∷◌, ltb, leb,
  ◌==◌, str_eq, when_some, if◌then◌else◌, length, get_elem?,
}
use xe.Map.{Map, lookup, insert}
use xe.Word.{add_u64}
use xe.Types.{Block, AccountChain, Lease}
use xe.Ledger.{Ledger, number_at, asset_or_xe, settled_stake}

-- The chain of an account, empty where there is none.
abbrev pub chain_of : Ledger → String → AccountChain
chain_of l account = when_some (lookup account l.store.chains) [] (λ ch. ch)

-- The loop of `GetAssetBalanceAtBlock`.
unfoldable pub balance_at : Ledger → String → String → ℕ → AccountChain → ℕ
balance_at l asset block_hash bal [] = bal
balance_at l asset block_hash bal (b ∷ rest) =
    let own = if str_eq (asset_or_xe b.asset) asset then b.balance else bal in
    let next = if str_eq asset "XUSD" then add_u64 own (settled_stake l.store.leases b) else own in
    let later = balance_at l asset block_hash next rest in
    if str_eq b.hash block_hash then next else later

unfoldable pub asset_balance_at_block : Ledger → String → String → String → ℕ
asset_balance_at_block l account asset block_hash =
    balance_at l asset block_hash 0 (chain_of l account)

unfoldable pub height_in : String → ℕ → AccountChain → Option ℕ
height_in block_hash i [] = none
height_in block_hash i (b ∷ rest) =
    let later = height_in block_hash (suc i) rest in
    if str_eq b.hash block_hash then some (suc i) else later

unfoldable pub block_height : Ledger → String → String → Option ℕ
block_height l account block_hash = height_in block_hash 0 (chain_of l account)

abbrev pub final_height : Ledger → String → ℕ
final_height l account = number_at account l.store.final_height

unfoldable pub is_finalized : Ledger → String → String → Bool
is_finalized l account block_hash =
    when_some (block_height l account block_hash) false (λ h. leb h (final_height l account))

unfoldable pub finalized_frontier : Ledger → String → String
finalized_frontier l account =
    if final_height l account == 0
    then ""
    else when_some (get_elem? (chain_of l account) (final_height l account - 1)) "" (λ b. b.hash)

-- One round of the loop over the chain: `left` blocks are still final.
unfoldable pub spend_step : ℕ → Block → Map ℕ → Map ℕ → Map ℕ
spend_step zero b prev out =
    let a = asset_or_xe b.asset in
    let outflow = number_at a prev - b.balance in
    if ltb b.balance (number_at a prev)
    then insert a (if leb outflow (number_at a out) then number_at a out - outflow else 0) out
    else out
spend_step (suc left) b prev out = insert (asset_or_xe b.asset) b.balance out

abbrev pred : ℕ → ℕ
pred zero = zero
pred (suc n) = n

unfoldable pub spend_from : ℕ → AccountChain → Map ℕ → Map ℕ → Map ℕ
spend_from left [] prev out = out
spend_from left (b ∷ rest) prev out =
    spend_from (pred left) rest (insert (asset_or_xe b.asset) b.balance prev)
      (spend_step left b prev out)

unfoldable pub spendable_balances : Ledger → String → Map ℕ
spendable_balances l account =
    if final_height l account == 0
    then []
    else spend_from (final_height l account) (chain_of l account) [] []
