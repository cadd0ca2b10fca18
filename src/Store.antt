-- ===== src/Store.antt =====
-- The in-memory store (store/mem_store.go): its maps, and the atomic writes of a block
-- (applyCommitLocked), of an undo (applyUndoLocked) and of a cascade (CommitCascade).
-- The lock that each call holds makes a call one step. A read gives a copy, so a map of values
-- stands for the map of pointers; the two copies of a pending send, in `pending` and in
-- `pending_by_dest`, are updated separately, as in the source.
use Prim.Native.String.{◌++◌}
use xe.Prelude.{
  ℕ, String, Bool, true, not, ◌&&◌, Option, none, some, List, [], ◌∷◌, Result, ok, err, ◌>>◌,
  when_some, require, fail_if, ◌==◌, str_eq, if◌then◌else◌,
}
use xe.Map.{Map, lookup, insert, delete}
use xe.Word.{add_u64, sub_u64}
use xe.Types.{
  Block, AccountChain, PendingSend, Lease, LeaseState, Keyset, BlockCommit, BlockUndo, Conflict,
  BlockStatus, effective_duration_secs,
}

pub record MemStore : Type 0 where
  pub blocks : Map Block
  pub chains : Map AccountChain
  pub pending : Map PendingSend
  pub pending_by_dest : Map (Map PendingSend)
  pub frontiers : Map String
  pub conflicts : Map Conflict
  pub staged : Map Block
  pub block_status : Map BlockStatus
  pub final_height : Map ℕ
  pub delegations : Map String
  pub leases : Map Lease
  pub keysets : Map Keyset
  pub account_keys : Map String

abbrev pub new_mem_store : MemStore
new_mem_store = record {
  blocks = [];
  chains = [];
  pending = [];
  pending_by_dest = [];
  frontiers = [];
  conflicts = [];
  staged = [];
  block_status = [];
  final_height = [];
  delegations = [];
  leases = [];
  keysets = [];
  account_keys = [];
}

-- `memConflictKey`
abbrev pub conflict_key : String → String → String
conflict_key account prev = account ++ "|" ++ prev

-- A text that is not empty, the test for an id that is set.
abbrev pub is_set : String → Bool
is_set s = not (str_eq s "")

-- `m[k]`, where a missing key gives the empty map.
abbrev pub submap : {V : Type 0} → String → Map (Map V) → Map V
submap k m = elim (lookup k m) [ none ↦ [] | some v ↦ v ]

-- The delete of `id` from the destination's index, which goes when it is empty.
abbrev unindex : String → String → Map (Map PendingSend) → Map (Map PendingSend)
unindex dest id idx = elim (lookup dest idx) [
  | none ↦ idx
  | some dest_map ↦ elim (delete id dest_map) [
    | [] ↦ delete dest idx
    | e ∷ rest ↦ insert dest (delete id dest_map) idx
  ]
]

unfoldable pub put_pending : PendingSend → MemStore → MemStore
put_pending ps m = record m {
  pending = insert ps.send_hash ps m.pending;
  pending_by_dest =
      insert ps.destination (insert ps.send_hash ps (submap ps.destination m.pending_by_dest))
        m.pending_by_dest;
}

unfoldable pub delete_pending : String → MemStore → MemStore
delete_pending id m = elim (lookup id m.pending) [
  | none ↦ m
  | some ps ↦ record m {
    pending = delete id m.pending;
    pending_by_dest = unindex ps.destination id m.pending_by_dest;
  }
]

-- `ps.Amount = f(ps.Amount)` on the entry and, where it is indexed, on its copy.
unfoldable pub update_pending : (ℕ → ℕ) → String → MemStore → MemStore
update_pending f id m = elim (lookup id m.pending) [
  | none ↦ m
  | some ps ↦ record m {
    pending = insert id (record ps { amount = f ps.amount }) m.pending;
    pending_by_dest = elim (lookup ps.destination m.pending_by_dest) [
      | none ↦ m.pending_by_dest
      | some dest_map ↦ elim (lookup id dest_map) [
        | none ↦ m.pending_by_dest
        | some dps ↦
            insert ps.destination (insert id (record dps { amount = f dps.amount }) dest_map)
              m.pending_by_dest
      ]
    ];
  }
]

-- A change to the lease record of a hash, where there is one.
abbrev pub update_lease : (Lease → Lease) → String → Map Lease → Map Lease
update_lease f h leases = elim (lookup h leases) [ none ↦ leases | some l ↦ insert h (f l) leases ]

abbrev pub state_index : LeaseState → ℕ
state_index LeaseState.unset = 0
state_index LeaseState.created = 1
state_index LeaseState.accepted = 2
state_index LeaseState.settled = 3
state_index LeaseState.cancelled = 4
state_index LeaseState.unfulfilled = 5
state_index LeaseState.expired = 6

abbrev pub same_state : LeaseState → LeaseState → Bool
same_state a b = state_index a == state_index b

-- The guard on the lease record that a commit expects, with `lease` the record found.
unfoldable pub check_lease : BlockCommit → Option Lease → Result (Unit {0})
check_lease c none = err "lease state conflict: lease %s not found"
check_lease c (some lease) = do
  require (same_state lease.state c.expect_lease_state)
      "lease state conflict: lease %s is %s, want %s"
  fail_if
      (not (c.expect_lease_effective_duration_secs == 0)
        && not (effective_duration_secs lease == c.expect_lease_effective_duration_secs))
      "lease state conflict: lease %s effective duration %d, want %d"

-- The guard is made where a commit sets `ExpectLeaseHash`.
abbrev pub expect_lease : BlockCommit → Option Lease → Result (Unit {0})
expect_lease c lease = if is_set c.expect_lease_hash then check_lease c lease else ok tt

abbrev set_lease_state : LeaseState → Lease → Lease
set_lease_state s l = record l { state = s }

abbrev close_lease : LeaseState → Lease → Lease
close_lease s l = record l { settled = true; state = s }

unfoldable pub commit_leases : BlockCommit → Map Lease → Map Lease
commit_leases c leases =
    let put = when_some c.put_lease leases (λ l. insert l.lease_hash l leases) in
    let settled =
      if is_set c.settle_lease_hash
      then update_lease (close_lease LeaseState.settled) c.settle_lease_hash put
      else put in
    let cancelled =
      if is_set c.cancel_lease_hash
      then update_lease (set_lease_state LeaseState.cancelled) c.cancel_lease_hash settled
      else settled in
    if is_set c.unfulfill_lease_hash
    then update_lease (close_lease LeaseState.unfulfilled) c.unfulfill_lease_hash cancelled
    else cancelled

unfoldable pub commit_pending : BlockCommit → MemStore → MemStore
commit_pending c m =
    let added = when_some c.add_pending m (λ ps. put_pending ps m) in
    let deleted =
      if is_set c.delete_pending_id then delete_pending c.delete_pending_id added else added in
    if is_set c.top_up_pending_id
    then update_pending (λ a. add_u64 a c.top_up_pending_amount) c.top_up_pending_id deleted
    else deleted

-- The maps that a commit writes under the account, or under the block's hash.
unfoldable pub commit_account : BlockCommit → MemStore → MemStore
commit_account c m = record m {
  blocks = insert c.block.hash c.block m.blocks;
  chains = insert c.account c.chain m.chains;
  frontiers =
      if is_set c.frontier_hash then insert c.account c.frontier_hash m.frontiers else m.frontiers;
  delegations =
      if c.delete_delegation
      then delete c.account m.delegations
      else if is_set c.delegation_rep
      then insert c.account c.delegation_rep m.delegations
      else m.delegations;
  leases = commit_leases c m.leases;
  keysets = when_some c.put_keyset m.keysets (λ ks. insert c.account ks m.keysets);
  account_keys =
      if is_set c.put_account_key
      then insert c.account c.put_account_key m.account_keys
      else m.account_keys;
}

unfoldable pub apply_commit : BlockCommit → MemStore → Result MemStore
apply_commit c m = do
  expect_lease c (lookup c.expect_lease_hash m.leases)
  ok (commit_pending c (commit_account c m))

unfoldable pub undo_pending : BlockUndo → MemStore → MemStore
undo_pending u m =
    let reduced =
      if is_set u.reduce_pending_id
      then update_pending (λ a. sub_u64 a u.reduce_pending_amount) u.reduce_pending_id m
      else m in
    let deleted =
      if is_set u.delete_pending_id then delete_pending u.delete_pending_id reduced else reduced in
    when_some u.add_pending deleted (λ ps. put_pending ps deleted)

unfoldable pub undo_account : BlockUndo → MemStore → MemStore
undo_account u m = record m {
  chains =
      if u.delete_account then delete u.account m.chains else insert u.account u.chain m.chains;
  frontiers =
      if u.delete_account
      then delete u.account m.frontiers
      else insert u.account u.frontier_hash m.frontiers;
  block_status =
      if is_set u.reject_hash
      then insert u.reject_hash BlockStatus.rejected m.block_status
      else m.block_status;
  delegations =
      if u.restore_delegation
      then if is_set u.prev_rep
        then insert u.account u.prev_rep m.delegations
        else delete u.account m.delegations
      else m.delegations;
  leases =
      let restored = when_some u.restore_lease m.leases (λ l. insert l.lease_hash l m.leases) in
      if is_set u.delete_lease_hash then delete u.delete_lease_hash restored else restored;
  keysets =
      if is_set u.delete_keyset_account
      then delete u.delete_keyset_account m.keysets
      else m.keysets;
  account_keys =
      if is_set u.delete_account_key_account
      then delete u.delete_account_key_account m.account_keys
      else m.account_keys;
}

unfoldable pub apply_undo : BlockUndo → MemStore → MemStore
apply_undo u m = undo_pending u (undo_account u m)

unfoldable pub apply_undos : List BlockUndo → MemStore → MemStore
apply_undos [] m = m
apply_undos (u ∷ us) m = apply_undos us (apply_undo u m)

-- The lease record that the winner of a cascade will find, after the undos.
unfoldable pub lease_after_undos : String → List BlockUndo → Option Lease → Option Lease
lease_after_undos h [] lease = lease
lease_after_undos h (u ∷ us) lease =
    let restored =
      when_some u.restore_lease lease (λ l. if str_eq l.lease_hash h then some l else lease) in
    lease_after_undos h us (if str_eq u.delete_lease_hash h then none else restored)

-- `commit` is never nil where a cascade commits.
unfoldable pub commit_cascade : List BlockUndo → BlockCommit → MemStore → Result MemStore
commit_cascade undos c m = do
  expect_lease c (lease_after_undos c.expect_lease_hash undos (lookup c.expect_lease_hash m.leases))
  apply_commit c (apply_undos undos m)
