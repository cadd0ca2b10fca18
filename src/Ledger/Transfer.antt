-- ===== src/Ledger/Transfer.antt =====
-- The handlers of the blocks that move balances: core/ledger.go (validateAndAddSend,
-- validateAndAddBurn, validateAndAddReceive, isLiveLeaseEscrow) and core/mint.go (validateAndAddMint, isMinter).
pub mod Accepted
pub mod Conserve
pub mod Sound
pub mod Run
pub mod Once
pub mod Cached
use Prim.Native.Char.{code}
use xe.Prelude.{
  ℕ, ◌+◌, ◌-◌, String, Bool, true, false, ◌&&◌, ◌||◌, Option, none, some, List, [], ◌∷◌, Result, ok,
  ◌>>=◌, ◌>>◌, require, fail_if, some_or, when_some, ltb, leb, ◌==◌, str_eq, if◌then◌else◌,
  get_last?,
}
use xe.Prelude.Int.{ltb_ℤ}
use xe.Map.{lookup}
use xe.Word.{add_u64}
use xe.Types.{Block, AccountChain, PendingSend, LeaseState, frontier}
use xe.Memo.{validate_memo}
use xe.Store.{is_set, conflict_key, same_state}
use xe.Ledger.{
  Ledger, LedgerConfig, get_account_chain_overlay, get_pending_send_overlay, get_lease_overlay,
  get_asset_balance_overlay, asset_or_xe,
}
use xe.Ledger.Commit.{prepare_block_write, commit_block_write}

-- The block's timestamp is not before that of the chain's last block.
unfoldable pub check_timestamp : Block → AccountChain → Result (Unit {0})
check_timestamp b chain = elim (get_last? chain) [
  | none ↦ ok tt
  | some last ↦
      fail_if (ltb_ℤ b.timestamp last.timestamp)
        "block timestamp %d is before previous block timestamp %d"
]

-- The block extends the chain: its previous hash is the frontier, and time does not go back.
unfoldable pub check_extends : Block → AccountChain → Result (Unit {0})
unfolding check_timestamp
check_extends b chain = do
  require (str_eq b.previous (frontier chain)) "previous mismatch: got %s, want %s"
  check_timestamp b chain

-- The block takes its amount out of the balance.
unfoldable pub check_debit : ℕ → Block → String → Result (Unit {0})
check_debit old_bal b short = do
  fail_if (ltb old_bal b.amount) short
  require (b.balance == old_bal - b.amount) "balance mismatch: expected %d, got %d"

-- The block puts `amount` into the balance, which must not overflow.
unfoldable pub check_credit : ℕ → ℕ → Block → String → String → Result (Unit {0})
check_credit old_bal amount b overflow mismatch = do
  fail_if (ltb (add_u64 old_bal amount) old_bal) overflow
  require (b.balance == add_u64 old_bal amount) mismatch

unfoldable pub send_checks : Ledger → Block → AccountChain → Result (Unit {0})
unfolding check_extends check_debit
send_checks l b chain = do
  check_extends b chain
  fail_if (b.amount == 0) "send amount must be > 0"
  check_debit (get_asset_balance_overlay l b.account b.asset) b
      "insufficient balance: have %d, sending %d"
  require (is_set b.destination) "send must have a destination"
  fail_if (str_eq b.destination b.account) "cannot send to self"
  validate_memo b.memo

abbrev pub pending_of : Block → String → PendingSend
pending_of b asset = record {
  send_hash = b.hash;
  source = b.account;
  destination = b.destination;
  amount = b.amount;
  asset = asset;
}

unfoldable pub validate_and_add_send : Ledger → Block → Result Ledger
validate_and_add_send l b = do
  chain ← some_or (get_account_chain_overlay l b.account) "send from unopened account: %s"
  send_checks l b chain
  let (commit, prev_balance) = prepare_block_write l b
  commit_block_write (record commit { add_pending = some (pending_of b b.asset) }) prev_balance l

unfoldable pub burn_checks : Ledger → Block → AccountChain → Result (Unit {0})
unfolding check_extends check_debit
burn_checks l b chain = do
  check_extends b chain
  check_debit (get_asset_balance_overlay l b.account b.asset) b
      "insufficient balance: have %d XE, burning %d"
  validate_memo b.memo

unfoldable pub validate_and_add_burn : Ledger → Block → Result Ledger
validate_and_add_burn l b = do
  require (str_eq b.asset "XE") "burn: restricted to XE"
  fail_if (is_set b.destination || is_set b.source) "burn: must not have source or destination"
  fail_if (b.amount == 0) "burn: amount must be > 0"
  chain ← some_or (get_account_chain_overlay l b.account) "burn from unopened account: %s"
  burn_checks l b chain
  let (commit, prev_balance) = prepare_block_write l b
  commit_block_write commit prev_balance l

unfoldable pub is_live_lease_escrow : Ledger → String → Bool
is_live_lease_escrow l h = when_some (get_lease_overlay l h) false (λ lease.
    same_state lease.state LeaseState.created || same_state lease.state LeaseState.accepted)

-- `GetBlockOrStaged`
unfoldable pub get_block_or_staged : Ledger → String → Option Block
get_block_or_staged l h = elim (lookup h l.store.blocks) [
  | some b ↦ some b
  | none ↦ lookup h l.store.staged
]

-- The send is a branch of a fork that is not resolved.
unfoldable pub is_contested : Ledger → String → Bool
is_contested l h = when_some (get_block_or_staged l h) false (λ src.
    when_some (lookup (conflict_key src.account src.previous) l.store.conflicts) false (λ c. true))

-- The balance of a receive, on a new account and on one with a chain.
unfoldable pub receive_checks : Ledger → Block → ℕ → Option AccountChain → Result (Unit {0})
unfolding check_timestamp check_credit
receive_checks l b amount none = do
  require (str_eq b.previous "0") "first block on account must have previous=0"
  require (b.balance == amount) "open-receive balance mismatch: expected %d, got %d"
receive_checks l b amount (some chain) = do
  check_timestamp b chain
  require (str_eq b.previous (frontier chain)) "previous mismatch: got %s, want %s"
  check_credit (get_asset_balance_overlay l b.account b.asset) amount b
      "receive would overflow uint64 balance" "receive balance mismatch: expected %d, got %d"

unfoldable pub validate_and_add_receive : Ledger → Block → Result Ledger
validate_and_add_receive l b = do
  require (is_set b.source) "receive must reference a source send"
  pending ← some_or (get_pending_send_overlay l b.source) "source send not pending: %s"
  require (str_eq pending.destination b.account) "send not addressed to this account"
  fail_if (is_live_lease_escrow l b.source) "cannot receive a live lease escrow: %s"
  fail_if (is_contested l b.source)
      "source send %s is contested by an unresolved conflict — receive deferred pending resolution"
  require (str_eq b.asset (asset_or_xe pending.asset))
      "receive asset %q does not match pending send asset %q"
  receive_checks l b pending.amount (get_account_chain_overlay l b.account)
  let (commit, prev_balance) = prepare_block_write l b
  commit_block_write (record commit { delete_pending_id = b.source }) prev_balance l

-- `strings.EqualFold` on the ASCII of addresses.
abbrev lower : ℕ → ℕ
lower c = if leb b'A' c && leb c b'Z' then c + 32 else c

unfoldable pub equal_fold : String → String → Bool
equal_fold String.[] String.[] = true
equal_fold String.[] (String.◌∷◌ d t) = false
equal_fold (String.◌∷◌ c s) String.[] = false
equal_fold (String.◌∷◌ c s) (String.◌∷◌ d t) = (lower (code c) == lower (code d)) && equal_fold s t

abbrev any_fold : String → List String → Bool
any_fold account [] = false
any_fold account (k ∷ rest) = equal_fold k account || any_fold account rest

unfoldable pub is_minter : LedgerConfig → String → Bool
is_minter cfg account = when_some cfg.minter_config false (any_fold account)

unfoldable pub mint_checks : Ledger → Block → Option AccountChain → Result (Unit {0})
unfolding check_extends check_credit
mint_checks l b none = do
  require (str_eq b.previous "0") "mint: first block must have previous=0"
  require (b.balance == b.amount) "mint: balance mismatch: expected %d, got %d"
mint_checks l b (some chain) = do
  check_extends b chain
  check_credit (get_asset_balance_overlay l b.account b.asset) b.amount b
      "mint: balance would overflow uint64" "mint: balance mismatch: expected %d, got %d"

abbrev is_empty : List ℕ → Bool
is_empty [] = true
is_empty (c ∷ s) = false

unfoldable pub validate_and_add_mint : LedgerConfig → Ledger → Block → Result Ledger
validate_and_add_mint cfg l b = do
  require (str_eq b.asset "XUSD") "mint: restricted to XUSD"
  require (is_minter cfg b.account) "mint: account %s is not an authorized minter"
  fail_if (is_set b.destination || is_set b.source) "mint: must not have source or destination"
  require (is_empty b.memo) "mint: memo not allowed"
  fail_if (b.amount == 0) "mint: amount must be > 0"
  mint_checks l b (get_account_chain_overlay l b.account)
  let (commit, prev_balance) = prepare_block_write l b
  commit_block_write commit prev_balance l
