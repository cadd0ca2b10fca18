-- ===== src/Ledger/Staged.antt =====
-- The checks of a block that is one branch of a fork (core/ledger.go, ValidateStagedBlock), and the
-- record of the fork (core/conflict.go).
use xe.Prelude.{
  ℕ, String, Bool, true, false, ◌||◌, Option, none, some, [], ◌∷◌, ◌++◌, Result, err, ◌>>=◌, ◌>>◌,
  require, fail_if, some_or, ltb, leb, ◌==◌, str_eq, if◌then◌else◌, length,
}
use xe.Prelude.Int.{ℤ}
use xe.Map.{lookup}
use xe.Word.{add_u64}
use xe.Types.{Block, BlockType, AccountChain, Conflict}
use xe.Attestation.{contains}
use xe.Store.{is_set}
use xe.Ledger.{Ledger, LedgerConfig}
use xe.Ledger.Transfer.{check_debit, is_live_lease_escrow, is_minter}

-- The balance of a staged block that takes in `amount`.
abbrev staged_credit : ℕ → ℕ → Block → String → Result (Unit {0})
staged_credit parent amount b mismatch = require (b.balance == add_u64 parent amount) mismatch

-- `ValidateStagedBlock` after the credential, by the block's type.
unfoldable pub staged_checks : LedgerConfig → Ledger → Block → ℕ → BlockType → Result (Unit {0})
unfolding check_debit
staged_checks cfg l b parent BlockType.send = do
  fail_if (b.amount == 0) "staged send: amount must be > 0"
  check_debit parent b "staged send: insufficient balance: have %d, sending %d"
  require (is_set b.destination) "staged send: must have a destination"
  fail_if (str_eq b.destination b.account) "staged send: cannot send to self"
staged_checks cfg l b parent BlockType.receive = do
  require (is_set b.source) "staged receive: must reference a source send"
  pending ← some_or (lookup b.source l.store.pending) "staged receive: source send not pending: %s"
  require (str_eq pending.destination b.account)
      "staged receive: send not addressed to this account"
  fail_if (is_live_lease_escrow l b.source) "staged receive: cannot receive a live lease escrow: %s"
  fail_if (ltb (add_u64 parent pending.amount) parent)
      "staged receive: balance would overflow uint64"
  staged_credit parent pending.amount b "staged receive: balance mismatch: expected %d, got %d"
staged_checks cfg l b parent BlockType.lease =
    check_debit parent b "staged lease: insufficient balance: have %d, need %d"
staged_checks cfg l b parent BlockType.lease_accept =
    check_debit parent b "staged lease_accept: insufficient balance: have %d, need %d"
staged_checks cfg l b parent BlockType.lease_settle = do
  pending ←
      some_or (lookup b.source l.store.pending) "staged lease_settle: no pending escrow for lease"
  fail_if (ltb (add_u64 parent b.amount) parent)
      "staged lease_settle: balance would overflow uint64"
  staged_credit parent b.amount b "staged lease_settle: balance mismatch: expected %d, got %d"
staged_checks cfg l b parent BlockType.lease_cancel = do
  pending ←
      some_or (lookup b.source l.store.pending) "staged lease_cancel: no pending send for lease"
  staged_credit parent pending.amount b "staged lease_cancel: balance mismatch: expected %d, got %d"
staged_checks cfg l b parent BlockType.lease_force_settle = do
  pending ←
      some_or (lookup b.source l.store.pending)
        "staged lease_force_settle: no pending escrow for lease"
  staged_credit parent pending.amount b
      "staged lease_force_settle: balance mismatch: expected %d, got %d"
staged_checks cfg l b parent BlockType.multisig_open =
    err "staged multisig_open: conflicting account opens are invalid"
staged_checks cfg l b parent BlockType.multisig_update =
    require (b.balance == parent) "staged multisig_update: balance mismatch: expected %d, got %d"
staged_checks cfg l b parent BlockType.burn = do
  require (str_eq b.asset "XE") "staged burn: restricted to XE"
  fail_if (b.amount == 0) "staged burn: amount must be > 0"
  check_debit parent b "staged burn: insufficient balance: have %d XE, burning %d"
staged_checks cfg l b parent BlockType.mint = do
  require (str_eq b.asset "XUSD") "staged mint: restricted to XUSD"
  require (is_minter cfg b.account) "staged mint: account %s is not an authorized minter"
  fail_if (b.amount == 0) "staged mint: amount must be > 0"
  fail_if (ltb (add_u64 parent b.amount) parent) "staged mint: balance would overflow uint64"
  staged_credit parent b.amount b "staged mint: balance mismatch: expected %d, got %d"
staged_checks cfg l b parent _ = err "staged block: unknown type: %s"

-- The hash of the block on the chain with the same previous hash, "" where there is none.
unfoldable pub detect_conflict_sibling : AccountChain → Block → String
detect_conflict_sibling [] b = ""
detect_conflict_sibling (c ∷ rest) b =
    let later = detect_conflict_sibling rest b in
    if str_eq c.previous b.previous then c.hash else later

abbrev max_conflict_hashes : ℕ
max_conflict_hashes = 10

-- `recordConflict` with the record found: the record to save, if there is one, and whether it is new.
unfoldable pub record_conflict :
    ℤ → String → String → String → String → Option Conflict → Option Conflict × Bool
record_conflict now account previous existing_hash new_hash none = (
  some (record {
    account_address = account;
    previous_hash = previous;
    block_hashes = existing_hash ∷ new_hash ∷ [];
    detected_at = now;
    weight_snapshot = [];
    total_weight = 0;
  }),
  true,
)
record_conflict now account previous existing_hash new_hash (some r) =
    if contains new_hash r.block_hashes || leb max_conflict_hashes (length r.block_hashes)
    then (none, false)
    else (some (record r { block_hashes = r.block_hashes ++ new_hash ∷ [] }), false)
