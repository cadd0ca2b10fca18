-- ===== src/Ledger/Effect.antt =====
-- What one accepted write changes, outside a cascade: the store's maps and the balance cache.
use xe.Prelude.{
  ℕ, String, ◌≡◌, refl, ◌∙◌, subst, sym, ok_injective, arith, true, false, Bool, Option, none, some,
  ok, when_some, if◌then◌else◌, >>=-eq-ok, Bool-cases, Option-cases, inl, inr,
}
use xe.Map.{Map, lookup, insert, delete, delete_missing}
use xe.Word.{add_u64}
use xe.Types.{BlockCommit, PendingSend}
use xe.Store.{
  MemStore, is_set, put_pending, delete_pending, update_pending, commit_pending, commit_account,
  commit_leases, apply_commit, expect_lease, check_lease,
}
use xe.Ledger.{Ledger, set_asset_balance, add_asset_balance, asset_or_xe}
use xe.Ledger.Commit.{
  cache_block, update_delegation, with_delegation, effective_rep, commit_plain, commit_block_write,
}

-- A change to the pending send of an id, where there is one.
abbrev pub topped_up : (ℕ → ℕ) → String → Map PendingSend → Map PendingSend
topped_up f id m = elim (lookup id m) [
  | none ↦ m
  | some ps ↦ insert id (record ps { amount = f ps.amount }) m
]

-- The pending sends after a commit.
abbrev pub pending_after : BlockCommit → Map PendingSend → Map PendingSend
pending_after c m =
    let added = when_some c.add_pending m (λ ps. insert ps.send_hash ps m) in
    let deleted = if is_set c.delete_pending_id then delete c.delete_pending_id added else added in
    if is_set c.top_up_pending_id
    then topped_up (λ a. add_u64 a c.top_up_pending_amount) c.top_up_pending_id deleted
    else deleted

delete_pending_lem :
    (id : String) (m : MemStore) → (delete_pending id m).pending ≡ delete id m.pending
unfolding delete_pending
delete_pending_lem id m = elim (Option-cases (lookup id m.pending)) [
  | inl e ↦ rw (e, delete_pending) (sym (delete_missing id m.pending e))
  | inr (ps, e) ↦ rw (e, delete_pending)
]

update_pending_lem :
    (f : ℕ → ℕ) (id : String) (m : MemStore)
    → (update_pending f id m).pending ≡ topped_up f id m.pending
unfolding update_pending
update_pending_lem f id m = ground arith

module _ (m : MemStore) where
  pub add_stage :
      (o : Option PendingSend)
      → (when_some o m (λ ps. put_pending ps m)).pending
        ≡ when_some o m.pending (λ ps. insert ps.send_hash ps m.pending)
  unfolding put_pending
  add_stage none = refl
  add_stage (some ps) = refl

  pub delete_stage :
      (b : Bool) (id : String)
      → (if b then delete_pending id m else m).pending
        ≡ (if b then delete id m.pending else m.pending)
  delete_stage true id = delete_pending_lem id m
  delete_stage false id = refl

  pub top_up_stage :
      (b : Bool) (f : ℕ → ℕ) (id : String)
      → (if b then update_pending f id m else m).pending
        ≡ (if b then topped_up f id m.pending else m.pending)
  top_up_stage true f id = update_pending_lem f id m
  top_up_stage false f id = refl

commit_pending_lem :
    (c : BlockCommit) (m : MemStore) → (commit_pending c m).pending ≡ pending_after c m.pending
unfolding commit_pending
commit_pending_lem c m = simp (top_up_stage, delete_stage, add_stage)

-- The maps that a change of the pending sends leaves alone.
abbrev pub Kept : MemStore → MemStore → Type 0
Kept m m' = (m'.blocks ≡ m.blocks) × (m'.chains ≡ m.chains) × (m'.leases ≡ m.leases)

pub Kept-trans : (m m' m'' : MemStore) → Kept m m' → Kept m' m'' → Kept m m''
Kept-trans m m' m'' h k = (k.0 ∙ h.0, k.1 ∙ h.1, k.2 ∙ h.2)

module _ (m : MemStore) where
  pub add-Kept : (o : Option PendingSend) → Kept m (when_some o m (λ ps. put_pending ps m))
  unfolding put_pending
  add-Kept none = (refl, refl, refl)
  add-Kept (some ps) = (refl, refl, refl)

  pub delete-Kept : (b : Bool) (id : String) → Kept m (if b then delete_pending id m else m)
  unfolding delete_pending
  delete-Kept true id = ground arith
  delete-Kept false id = (refl, refl, refl)

  pub top_up-Kept :
      (b : Bool) (f : ℕ → ℕ) (id : String) → Kept m (if b then update_pending f id m else m)
  unfolding update_pending
  top_up-Kept true f id = ground arith
  top_up-Kept false f id = (refl, refl, refl)

module _ (c : BlockCommit) (m : MemStore) where
  abbrev added : MemStore
  added = when_some c.add_pending m (λ ps. put_pending ps m)

  abbrev deleted : MemStore
  deleted = if is_set c.delete_pending_id then delete_pending c.delete_pending_id added else added

  commit_pending-Kept : Kept m (commit_pending c m)
  unfolding commit_pending
  commit_pending-Kept =
      let whole = commit_pending c m in
      Kept-trans m added whole (add-Kept m c.add_pending) (
        Kept-trans added deleted whole
          (delete-Kept added (is_set c.delete_pending_id) c.delete_pending_id)
          (top_up-Kept deleted (is_set c.top_up_pending_id) (λ a. add_u64 a c.top_up_pending_amount)
            c.top_up_pending_id))

-- A write of the ledger by the commit `c`.
pub record Committed (c : BlockCommit) (l l' : Ledger) : Type 0 where
  pub blocks : l'.store.blocks ≡ insert c.block.hash c.block l.store.blocks
  pub chains : l'.store.chains ≡ insert c.account c.chain l.store.chains
  pub pending : l'.store.pending ≡ pending_after c l.store.pending
  pub leases : l'.store.leases ≡ commit_leases c l.store.leases
  pub balances :
      l'.asset_balances
      ≡ when_some c.asset_credit
          (set_asset_balance c.account (asset_or_xe c.block.asset) c.block.balance l.asset_balances)
          (λ d. add_asset_balance d.account d.asset d.amount (
            set_asset_balance c.account
              (asset_or_xe c.block.asset)
              c.block.balance
              l.asset_balances))
  pub cascade : l'.active_cascade ≡ none
  -- The lease record was the one that the commit expects.
  pub guard : expect_lease c (lookup c.expect_lease_hash l.store.leases) ≡ ok tt

module _ (c : BlockCommit) (prev : ℕ) (l : Ledger) where
  abbrev stored : MemStore
  stored = commit_pending c (commit_account c l.store)

  cached-Committed :
      expect_lease c (lookup c.expect_lease_hash l.store.leases) ≡ ok tt
      → l.active_cascade ≡ none
      → Committed c l (cache_block c prev (record l { store = stored }))
  unfolding cache_block update_delegation commit_account
  cached-Committed guard idle = record {
    blocks = kept.0;
    chains = kept.1;
    pending = commit_pending_lem c (commit_account c l.store);
    leases = kept.2;
    balances = refl;
    cascade = idle;
    guard = guard;
  }
    where
      kept : Kept (commit_account c l.store) stored
      kept = commit_pending-Kept c (commit_account c l.store)

  plain-Committed :
      {l' : Ledger} → l.active_cascade ≡ none → commit_plain c prev l ≡ ok l' → Committed c l l'
  unfolding commit_plain apply_commit
  plain-Committed {l'} idle h =
      let (s, written, e₁) = >>=-eq-ok (apply_commit c l.store) _ h in
      let (u, guard, e₂) =
        >>=-eq-ok (expect_lease c (lookup c.expect_lease_hash l.store.leases)) _ written in
      subst (λ x. Committed c l x) (ok_injective e₁)
        (subst (λ x. Committed c l (cache_block c prev (record l { store = x }))) (ok_injective e₂)
          (cached-Committed guard idle))

-- The representative that is written along changes nothing else.
delegation-Committed :
    (c : BlockCommit) (l l' : Ledger) → Committed (with_delegation l c) l l' → Committed c l l'
unfolding with_delegation commit_leases check_lease
delegation-Committed c l l' h = elim (Bool-cases (is_set (effective_rep l c))) [
  | inl e ↦
      (let k : Committed (record c { delegation_rep = effective_rep l c }) l l' =
          rw (e, with_delegation) at h in
        record {
          blocks = k.blocks;
          chains = k.chains;
          pending = k.pending;
          leases = k.leases;
          balances = k.balances;
          cascade = k.cascade;
          guard = k.guard;
        })
  | inr e ↦
      (let k : Committed (record c { delete_delegation = true }) l l' =
          rw (e, with_delegation) at h in
        record {
          blocks = k.blocks;
          chains = k.chains;
          pending = k.pending;
          leases = k.leases;
          balances = k.balances;
          cascade = k.cascade;
          guard = k.guard;
        })
]

-- A block write that succeeds outside a cascade has passed the commit's guard on the lease
-- record, and its effect on the blocks, chains, pending sends, leases and balances is exactly
-- the commit's, field by field, with no cascade active afterwards.
pub commit-Committed :
    (c : BlockCommit) (prev : ℕ) (l l' : Ledger)
    → l.active_cascade ≡ none
    → commit_block_write c prev l ≡ ok l'
    → Committed c l l'
unfolding commit_block_write
commit-Committed c prev l l' idle h =
    delegation-Committed c l l'
      (plain-Committed (with_delegation l c) prev l idle (rw (idle, commit_block_write) at h))
