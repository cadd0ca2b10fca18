-- ===== src/Ledger/Undo.antt =====
-- Taking back the last block of a chain (core/rollback.go: priorLease, escrowPendingOf,
-- priorLeasePopRenewal, buildBlockUndo, undoBlockApply).
pub mod Chain
pub mod Send
use xe.Prelude.{
  ℕ, ◌-◌, String, Bool, true, false, not, ◌&&◌, ◌||◌, Option, none, some, List, [], ◌∷◌, Result, ok,
  err, ◌>>=◌, ◌>>◌, require, fail_if, some_or, when_some, str_eq, if◌then◌else◌, get_last?,
  drop_last,
}
use xe.Prelude.Int.{ℤ, pos}
use xe.Map.{lookup}
use xe.Word.{add_u64}
use xe.Types.{
  Block, BlockType, AccountChain, PendingSend, Lease, LeaseState, LeaseSegment, AssetDelta,
  BlockUndo, frontier,
}
use xe.Reputation.{ReputationEvent, EventKind}
use xe.Store.{apply_undo, is_set}
use xe.Ledger.{Ledger, MemApply, asset_or_xe, asset_balance_on_chain, xusd_balance_on_chain}
use xe.Ledger.Commit.{apply_mem}

-- `priorLease`: the record as it was in the state `target`.
unfoldable pub prior_lease : Ledger → String → LeaseState → Option Lease
prior_lease l lease_hash LeaseState.created = elim (lookup lease_hash l.store.leases) [
  | none ↦ none
  | some cur ↦ some (record cur {
    state = LeaseState.created;
    settled = false;
    stake = 0;
    start_time = pos 0;
    locked_r = 0;
    locked_payout_cap = 0;
    locked_twap = 0;
  })
]
prior_lease l lease_hash target = elim (lookup lease_hash l.store.leases) [
  | none ↦ none
  | some cur ↦ some (record cur { state = target; settled = false })
]

-- The loop over the renewals, from the amount so far.
unfoldable pub with_renewals : ℕ → List LeaseSegment → ℕ
with_renewals amount [] = amount
with_renewals amount (seg ∷ rest) = with_renewals (add_u64 amount seg.cost) rest

abbrev pub is_lease_block : BlockType → Bool
is_lease_block BlockType.lease = true
is_lease_block _ = false

abbrev is_send : BlockType → Bool
is_send BlockType.send = true
is_send _ = false

-- `escrowPendingOf`: the escrow of a lease with all its renewals.
unfoldable pub escrow_pending_of : Ledger → String → Option PendingSend
escrow_pending_of l lease_hash = elim (lookup lease_hash l.store.blocks) [
  | none ↦ none
  | some lb ↦
      if is_lease_block lb.type
      then some (record {
        send_hash = lb.hash;
        source = lb.account;
        destination = lb.destination;
        amount =
            when_some (lookup lease_hash l.store.leases) lb.amount
              (λ lease. with_renewals lb.amount lease.renewals);
        asset = "XUSD";
      })
      else none
]

-- `priorLeasePopRenewal`
unfoldable pub prior_lease_pop_renewal : Ledger → String → Option Lease
prior_lease_pop_renewal l lease_hash = elim (lookup lease_hash l.store.leases) [
  | none ↦ none
  | some cur ↦ elim (get_last? cur.renewals) [
    | none ↦ none
    | some seg ↦ some (record cur { renewals = drop_last cur.renewals })
  ]
]

-- The variables that the switch of `buildBlockUndo` sets.
pub record Reversal : Type 0 where
  pub delete_pending_id : String
  pub add_pending : Option PendingSend
  pub reduce_pending_id : String
  pub reduce_pending_amount : ℕ
  pub restore_lease : Option Lease
  pub delete_lease_hash : String
  pub delete_keyset_account : String
  pub asset_debit : Option AssetDelta

abbrev pub no_reversal : Reversal
no_reversal = record {
  delete_pending_id = "";
  add_pending = none;
  reduce_pending_id = "";
  reduce_pending_amount = 0;
  restore_lease = none;
  delete_lease_hash = "";
  delete_keyset_account = "";
  asset_debit = none;
}

-- The pending send that a receive consumed, where its source is a stored send.
unfoldable pub received_send : Ledger → String → Option PendingSend
received_send l source = elim (lookup source l.store.blocks) [
  | none ↦ none
  | some src ↦
      if is_send src.type
      then some (record {
        send_hash = src.hash;
        source = src.account;
        destination = src.destination;
        amount = src.amount;
        asset = asset_or_xe src.asset;
      })
      else none
]

unfoldable pub reversal_of : Ledger → Block → BlockType → Result Reversal
reversal_of l b BlockType.send = ok (record no_reversal { delete_pending_id = b.hash })
reversal_of l b BlockType.receive =
    ok (record no_reversal { add_pending = received_send l b.source })
reversal_of l b BlockType.lease =
    ok (record no_reversal { delete_pending_id = b.hash; delete_lease_hash = b.hash })
reversal_of l b BlockType.lease_accept =
    ok (record no_reversal { restore_lease = prior_lease l b.source LeaseState.created })
reversal_of l b BlockType.lease_settle =
    let restored = prior_lease l b.source LeaseState.accepted in
    ok (record no_reversal {
      restore_lease = restored;
      add_pending = escrow_pending_of l b.source;
      asset_debit =
          when_some restored none
            (λ lease. some (record { account = b.account; asset = "XUSD"; amount = lease.stake }));
    })
reversal_of l b BlockType.lease_force_settle = ok (record no_reversal {
  restore_lease = prior_lease l b.source LeaseState.accepted;
  add_pending = escrow_pending_of l b.source;
})
reversal_of l b BlockType.lease_cancel = ok (record no_reversal {
  restore_lease = prior_lease l b.source LeaseState.created;
  add_pending = escrow_pending_of l b.source;
})
reversal_of l b BlockType.lease_renew = ok (record no_reversal {
  restore_lease = prior_lease_pop_renewal l b.source;
  reduce_pending_id = b.source;
  reduce_pending_amount = b.amount;
})
reversal_of l b BlockType.multisig_open =
    ok (record no_reversal { delete_keyset_account = b.account })
reversal_of l b BlockType.multisig_update =
    err "undo: reversing a multisig_update is not supported (prior keyset unrecoverable): %s"
reversal_of l b _ = ok no_reversal

-- The reputation event of a block that moves a lease; `none` for any other block.
unfoldable pub lease_event : BlockType → Lease → Option ReputationEvent
lease_event BlockType.lease_accept lease = some (record {
  kind = EventKind.lease_accepted;
  provider = lease.provider;
  consumer = lease.consumer;
  timestamp = pos 0;
  duration_secs = 0;
})
lease_event BlockType.lease_settle lease = some (record {
  kind = EventKind.lease_settled;
  provider = lease.provider;
  consumer = lease.consumer;
  timestamp = pos 0;
  duration_secs = lease.duration;
})
lease_event BlockType.lease_force_settle lease = some (record {
  kind = EventKind.lease_unfulfilled;
  provider = lease.provider;
  consumer = lease.consumer;
  timestamp = pos 0;
  duration_secs = 0;
})
lease_event BlockType.lease_cancel lease = some (record {
  kind = EventKind.lease_cancelled;
  provider = lease.provider;
  consumer = lease.consumer;
  timestamp = pos 0;
  duration_secs = 0;
})
lease_event _ lease = none

-- The blocks whose undo must find the lease record.
abbrev needs_lease : BlockType → Bool
needs_lease BlockType.lease_accept = true
needs_lease BlockType.lease_settle = true
needs_lease BlockType.lease_force_settle = true
needs_lease BlockType.lease_cancel = true
needs_lease BlockType.lease_renew = true
needs_lease _ = false

-- The representative of the last block that names one; the scan from the end stops at it.
unfoldable pub last_representative : String → AccountChain → String
last_representative rep [] = rep
last_representative rep (b ∷ rest) =
    last_representative (if is_set b.representative then b.representative else rep) rest

-- The balance that the undo restores.
unfoldable pub parent_balance : Ledger → Block → AccountChain → ℕ
parent_balance l b chain =
    if str_eq b.previous "0"
    then 0
    else if str_eq (asset_or_xe b.asset) "XUSD"
    then xusd_balance_on_chain l.store.leases chain
    else asset_balance_on_chain chain (asset_or_xe b.asset)

abbrev no_blocks : AccountChain → Bool
no_blocks [] = true
no_blocks (b ∷ rest) = false

abbrev pub undo_of : String → Block → AccountChain → Reversal → BlockUndo
undo_of account b chain r = record {
  account = account;
  chain = chain;
  frontier_hash = frontier chain;
  add_pending = r.add_pending;
  delete_pending_id = r.delete_pending_id;
  reject_hash = b.hash;
  delete_account = no_blocks chain;
  restore_delegation = true;
  prev_rep = last_representative "" chain;
  restore_lease = r.restore_lease;
  delete_lease_hash = r.delete_lease_hash;
  delete_keyset_account = r.delete_keyset_account;
  delete_account_key_account = if is_set b.pub_key then b.account else "";
  asset_debit = r.asset_debit;
  reduce_pending_id = r.reduce_pending_id;
  reduce_pending_amount = r.reduce_pending_amount;
}

abbrev pub apply_of : Ledger → String → Block → AccountChain → Reversal → MemApply
apply_of l account b whole r =
    let chain = drop_last whole in
    record {
      account = account;
      asset = asset_or_xe b.asset;
      delete_keyset_account = r.delete_keyset_account;
      delete_account_key_account = if is_set b.pub_key then b.account else "";
      delete_account = no_blocks chain;
      parent_bal = parent_balance l b chain;
      asset_debit = r.asset_debit;
      xe_before = asset_balance_on_chain whole "XE";
      xe_after = asset_balance_on_chain chain "XE";
      prev_rep = last_representative "" chain;
      rep_revert = when_some r.restore_lease none (λ lease. lease_event b.type lease);
    }

abbrev is_none : Option Lease → Bool
is_none none = true
is_none (some lease) = false

-- The chain ends with this block.
abbrev ends_with : Option AccountChain → String → Bool
ends_with none hash = false
ends_with (some chain) hash = when_some (get_last? chain) false (λ b. str_eq b.hash hash)

unfoldable pub build_block_undo :
    Ledger → String → Block → Option AccountChain → Result (BlockUndo × MemApply)
build_block_undo l account b chain = do
  require (ends_with chain b.hash)
      "cascade apply: %s is not the frontier of %s (chain changed under the cascade)"
  r ← reversal_of l b b.type
  fail_if (needs_lease b.type && is_none r.restore_lease)
      "undo: lease %s not found while reversing %s"
  let whole = when_some chain [] (λ ch. ch)
  ok (undo_of account b (drop_last whole) r, apply_of l account b whole r)

unfoldable pub undo_block_apply : Ledger → String → Block → Result Ledger
undo_block_apply l account b = do
  u ← build_block_undo l account b (lookup account l.store.chains)
  ok (apply_mem u.1 (record l { store = apply_undo u.0 l.store }))
