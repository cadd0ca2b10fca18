-- ===== src/Ledger/Contract/Cancel.antt =====
-- core/ledger.go: resolveCancelWinsOverAccept and validateAndAddLeaseCancel.
use xe.Prelude.{
  ℕ, suc, ◌+◌, String, Bool, true, false, not, ◌&&◌, Option, none, some, [], ◌∷◌, Result, ok, err,
  ◌>>=◌, ◌>>◌, require, fail_if, some_or, when_some, leb, ◌==◌, str_eq, if◌then◌else◌, length,
}
use xe.Map.{lookup}
use xe.Word.{add_u64}
use xe.Types.{Block, BlockType, Lease, LeaseState, AccountChain, BlockCommit}
use xe.Reputation
use xe.Reputation.{EventKind}
use xe.Store.{is_set, same_state}
use xe.Ledger.{
  Ledger, number_at, get_account_chain_overlay, get_pending_send_overlay, get_lease_overlay,
  get_asset_balance_overlay,
}
use xe.Ledger.Commit.{prepare_block_write, commit_block_write}
use xe.Ledger.Transfer.{check_extends}
use xe.Ledger.Undo.{undo_block_apply, is_lease_block}

abbrev is_lease_accept : BlockType → Bool
is_lease_accept BlockType.lease_accept = true
is_lease_accept _ = false

-- The first accept of the lease on a chain, with its index.
unfoldable pub find_accept : String → ℕ → AccountChain → Option (ℕ × Block)
find_accept lease_hash i [] = none
find_accept lease_hash i (blk ∷ rest) =
    let later = find_accept lease_hash (suc i) rest in
    if is_lease_accept blk.type && str_eq blk.source lease_hash then some (i, blk) else later

-- `busy`: another call holds the lock of the provider's account.
unfoldable pub resolve_cancel_wins_over_accept : Bool → Ledger → String → String → Result Ledger
resolve_cancel_wins_over_accept busy l lease_hash provider = do
  let pchain = when_some (lookup provider l.store.chains) [] (λ ch. ch)
  found ←
      some_or (find_accept lease_hash 0 pchain)
        "cancel-wins: provider accept not found locally: retry after sync"
  require (found.0 + 1 == length pchain)
      "cancel-wins: provider built on the accept: retry after sync"
  fail_if (leb (found.0 + 1) (number_at provider l.store.final_height))
      "cannot cancel lease in accepted state: accept is finalized"
  fail_if busy "cancel-wins: provider chain busy: retry after sync"
  undo_block_apply l provider found.1

-- An accept by another account is taken back; any other state than created is refused.
unfoldable pub make_cancellable : Bool → Ledger → Block → Option Lease → Result Ledger
make_cancellable busy l b none = ok l
make_cancellable busy l b (some existing) =
    if same_state existing.state LeaseState.accepted && not (str_eq existing.provider b.account)
    then resolve_cancel_wins_over_accept busy l b.source existing.provider
    else if same_state existing.state LeaseState.created
    then ok l
    else err "cannot cancel lease in %s state"

-- The lease block that a cancel names, which is its account's own.
unfoldable pub cancelled_block : Ledger → Block → Result Block
cancelled_block l b = do
  lease_block ← some_or (lookup b.source l.store.blocks) "source lease block not found: %s"
  require (is_lease_block lease_block.type) "source block is not a lease block"
  require (str_eq lease_block.account b.account)
      "lease_cancel: only the consumer can cancel a lease"
  ok lease_block

-- The sum of the refund is not checked for overflow.
unfoldable pub refund_checks : Ledger → Block → ℕ → Result (Unit {0})
refund_checks l b amount = do
  pending ← some_or (get_pending_send_overlay l b.source) "no pending send for lease: %s"
  chain ← some_or (get_account_chain_overlay l b.account) "lease_cancel from unopened account"
  check_extends b chain
  require (b.balance == add_u64 (get_asset_balance_overlay l b.account "XUSD") amount)
      "balance mismatch: expected %d, got %d"

unfoldable pub cancel_commit : Ledger → Block → BlockCommit
cancel_commit l b = record (prepare_block_write l b).0 {
  delete_pending_id = b.source;
  cancel_lease_hash = b.source;
  expect_lease_hash = b.source;
  expect_lease_state = LeaseState.created;
}

-- The checks up to the lease's state, with what they change: the lease block, and the ledger in
-- which an accept that loses is taken back.
unfoldable pub cancel_opened : Bool → Ledger → Block → Result (Block × Ledger)
cancel_opened busy l b = do
  require (str_eq b.asset "XUSD") "lease_cancel block must have asset=XUSD"
  require (is_set b.source) "lease_cancel must reference a source lease block"
  lease_block ← cancelled_block l b
  opened ← make_cancellable busy l b (get_lease_overlay l b.source)
  ok (lease_block, opened)

-- The rest of the handler.
unfoldable pub cancel_written : Ledger → Block → Block → Result Ledger
cancel_written l b lease_block = do
  refund_checks l b lease_block.amount
  written ← commit_block_write (cancel_commit l b) (prepare_block_write l b).1 l
  ok (record written {
    reputation =
        Reputation.apply
          (record {
            kind = EventKind.lease_cancelled;
            provider = lease_block.destination;
            consumer = b.account;
            timestamp = b.timestamp;
            duration_secs = 0;
          })
          written.reputation;
  })

-- The ledger that a part of the handler leaves, and the handler's result.
abbrev finish : Ledger → Result Ledger → Ledger × Result (Unit {0})
finish l (ok written) = (written, ok tt)
finish l (err e) = (l, err e)

abbrev continue : Ledger → Block → Result (Block × Ledger) → Ledger × Result (Unit {0})
continue l b (ok (lease_block, opened)) = finish opened (cancel_written opened b lease_block)
continue l b (err e) = (l, err e)

-- An error after the accept has been taken back leaves it taken back.
unfoldable pub validate_and_add_lease_cancel : Bool → Ledger → Block → Ledger × Result (Unit {0})
validate_and_add_lease_cancel busy l b = continue l b (cancel_opened busy l b)
