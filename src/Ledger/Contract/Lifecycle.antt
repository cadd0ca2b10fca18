-- ===== src/Ledger/Contract/Lifecycle.antt =====
-- The states that a lease record goes through under accepts, settlements and forced settlements.
use xe.Prelude.{
  ℕ, Bool, String, ◌≡◌, subst, refl, ◌∙◌, sym, ap, arith, true, false, none, some, ok, Option,
  str_eq, >>=-eq-ok, require, if◌then◌else◌, ◌==◌, ok_injective,
}
use xe.Prelude.Int.{ℤ}
use xe.Map.{Map, lookup, insert, lookup-insert_self, lookup-insert_ne}
use xe.Types.{Block, Lease, LeaseState, BlockCommit}
use xe.Store.{
  is_set, same_state, state_index, check_lease, expect_lease, commit_leases, update_lease,
}
use xe.Ledger.{Ledger, LedgerConfig}
use xe.Ledger.Commit.{prepare_block_write, commit_block_write}
use xe.Ledger.Effect.{commit-Committed, Committed}
use xe.Ledger.Transfer.Accepted.{require_inv}
use xe.Ledger.Contract.Accept.{
  validate_and_add_lease_accept, lease_accept_checks, accept_commit, accepted_lease,
}
use xe.Ledger.Contract.Close.{
  validate_and_add_lease_settle, validate_and_add_lease_force_settle, lease_settle_checks,
  lease_force_settle_checks, settle_commit, force_settle_commit,
}

-- The states by their indices.
state_of : ℕ → LeaseState
state_of n =
    if n == 0
    then LeaseState.unset
    else if n == 1
    then LeaseState.created
    else if n == 2
    then LeaseState.accepted
    else if n == 3
    then LeaseState.settled
    else if n == 4
    then LeaseState.cancelled
    else if n == 5
    then LeaseState.unfulfilled
    else LeaseState.expired

state_of-state_index : (s : LeaseState) → state_of (state_index s) ≡ s
unfolding state_of
state_of-state_index LeaseState.unset = refl
state_of-state_index LeaseState.created = refl
state_of-state_index LeaseState.accepted = refl
state_of-state_index LeaseState.settled = refl
state_of-state_index LeaseState.cancelled = refl
state_of-state_index LeaseState.unfulfilled = refl
state_of-state_index LeaseState.expired = refl

same_state_lem : (s t : LeaseState) → same_state s t ≡ true → s ≡ t
same_state_lem s t h =
    sym (state_of-state_index s) ∙ ap state_of (ground arith) ∙ state_of-state_index t

-- The lease record of `h` goes from state `s` to state `t`, and no other record changes.
pub record Moves (h : String) (s t : LeaseState) (leases leases' : Map Lease) : Type 0 where
  pub old : Lease
  pub new : Lease
  pub before : lookup h leases ≡ some old
  pub was : old.state ≡ s
  pub after : lookup h leases' ≡ some new
  pub is : new.state ≡ t
  pub others : (k : String) → str_eq h k ≡ false → lookup k leases' ≡ lookup k leases

expected_state :
    (c : BlockCommit) (o : Option Lease)
    → is_set c.expect_lease_hash ≡ true
    → expect_lease c o ≡ ok tt
    → (old : Lease) × (o ≡ some old) × (old.state ≡ c.expect_lease_state)
unfolding check_lease
expected_state c none e h = cc (rw e at h)
expected_state c (some old) e h =
    (old, refl, same_state_lem old.state c.expect_lease_state (ground (arith, rw e at h)))

update_lease_found :
    (f : Lease → Lease) (h : String) (m : Map Lease) {x : Lease}
    → lookup h m ≡ some x
    → update_lease f h m ≡ insert h (f x) m
update_lease_found f h m e = rw (e, update_lease)

module _ (l : Ledger) (b : Block) where
  abbrev leases : Map Lease
  leases = l.store.leases

  -- A commit that expects the record of the block's source, and replaces it.
  replaced :
      (s t : LeaseState) (f : Lease → Lease) (c : BlockCommit) (l' : Ledger)
      → ((x : Lease) → (f x).state ≡ t)
      → is_set b.source ≡ true
      → c.expect_lease_hash ≡ b.source
      → c.expect_lease_state ≡ s
      → ((x : Lease)
          → lookup b.source leases ≡ some x
          → commit_leases c leases ≡ insert b.source (f x) leases)
      → Committed c l l'
      → Moves b.source s t leases l'.store.leases
  replaced s t f c l' is_t set same st effect w =
      let (old, at_hash, was) =
        expected_state c (lookup c.expect_lease_hash leases) (rw same set) w.guard in
      let found : lookup b.source leases ≡ some old = rw same at at_hash in
      record {
        old = old;
        new = f old;
        before = found;
        was = was ∙ st;
        after = rw (w.leases, effect old found) (lookup-insert_self b.source (f old) leases);
        is = is_t old;
        others =
            λ k ne. rw (w.leases, effect old found) (lookup-insert_ne k b.source (f old) leases ne);
      }

  settle_effect :
      (found x : Lease)
      → is_set b.source ≡ true
      → lookup b.source leases ≡ some x
      → commit_leases (settle_commit l b found) leases
        ≡ insert b.source (record x { settled = true; state = LeaseState.settled }) leases
  unfolding settle_commit prepare_block_write commit_leases
  settle_effect found x set e = rw set (update_lease_found _ b.source leases e)

  force_settle_effect :
      (found x : Lease)
      → is_set b.source ≡ true
      → lookup b.source leases ≡ some x
      → commit_leases (force_settle_commit l b found) leases
        ≡ insert b.source (record x { settled = true; state = LeaseState.unfulfilled }) leases
  unfolding force_settle_commit prepare_block_write commit_leases
  force_settle_effect found x set e = rw set (update_lease_found _ b.source leases e)

  accept_effect :
      (lease_block : Block) (start : ℤ)
      → commit_leases (accept_commit l b lease_block start) leases
        ≡ insert b.source (accepted_lease b lease_block start) leases
  unfolding accept_commit prepare_block_write commit_leases
  accept_effect lease_block start = refl

module _ (cfg : LedgerConfig) (l : Ledger) (b : Block) (skip : Bool)
    (idle : l.active_cascade ≡ none) where
  -- An accepted settlement, outside a cascade, finds the lease record that it names accepted and
  -- leaves it settled, and leaves every other record alone.
  pub settle-Moves :
      {l' : Ledger}
      → validate_and_add_lease_settle cfg l b skip ≡ ok l'
      → Moves b.source LeaseState.accepted LeaseState.settled l.store.leases l'.store.leases
  unfolding validate_and_add_lease_settle settle_commit
  settle-Moves {l'} h =
      let (u₁, e₁, h₁) = >>=-eq-ok (require (str_eq b.asset "XE") _) _ h in
      let (u₂, set, h₂) = >>=-eq-ok (require (is_set b.source) _) _ h₁ in
      let (found, e₃, h₃) = >>=-eq-ok (lease_settle_checks cfg l b skip) _ h₂ in
      let (written, e₄, h₄) =
        >>=-eq-ok (commit_block_write (settle_commit l b found) (prepare_block_write l b).1 l) _
          h₃ in
      let m =
        replaced l b LeaseState.accepted LeaseState.settled
          (λ x. record x { settled = true; state = LeaseState.settled }) (settle_commit l b found)
          written (λ x. refl) (require_inv _ _ set) refl refl
          (λ x e. settle_effect l b found x (require_inv _ _ set) e)
          (commit-Committed (settle_commit l b found) _ l written idle e₄) in
      subst
        (λ x. Moves b.source LeaseState.accepted LeaseState.settled l.store.leases x.store.leases)
        (ok_injective h₄) m

  -- An accepted forced settlement, outside a cascade, finds the lease record that it names accepted
  -- and leaves it unfulfilled, and leaves every other record alone.
  pub force_settle-Moves :
      {l' : Ledger}
      → validate_and_add_lease_force_settle cfg l b skip ≡ ok l'
      → Moves b.source LeaseState.accepted LeaseState.unfulfilled l.store.leases l'.store.leases
  unfolding validate_and_add_lease_force_settle force_settle_commit
  force_settle-Moves {l'} h =
      let (u₁, e₁, h₁) = >>=-eq-ok (require (str_eq b.asset "XUSD") _) _ h in
      let (u₂, set, h₂) = >>=-eq-ok (require (is_set b.source) _) _ h₁ in
      let (found, e₃, h₃) = >>=-eq-ok (lease_force_settle_checks cfg l b skip) _ h₂ in
      let (written, e₄, h₄) =
        >>=-eq-ok (commit_block_write (force_settle_commit l b found) (prepare_block_write l b).1 l)
          _ h₃ in
      let m =
        replaced l b LeaseState.accepted LeaseState.unfulfilled
          (λ x. record x { settled = true; state = LeaseState.unfulfilled })
          (force_settle_commit l b found) written (λ x. refl) (require_inv _ _ set) refl refl
          (λ x e. force_settle_effect l b found x (require_inv _ _ set) e)
          (commit-Committed (force_settle_commit l b found) _ l written idle e₄) in
      subst
        (λ x.
          Moves b.source LeaseState.accepted LeaseState.unfulfilled l.store.leases x.store.leases)
        (ok_injective h₄) m

  -- An accepted lease_accept, outside a cascade, finds the lease record that it names created and
  -- leaves it accepted, and leaves every other record alone.
  pub accept-Moves :
      {l' : Ledger}
      → validate_and_add_lease_accept cfg l b skip ≡ ok l'
      → Moves b.source LeaseState.created LeaseState.accepted l.store.leases l'.store.leases
  unfolding validate_and_add_lease_accept accept_commit
  accept-Moves {l'} h =
      let (u₁, e₁, h₁) = >>=-eq-ok (require (str_eq b.asset "XUSD") _) _ h in
      let (u₂, set, h₂) = >>=-eq-ok (require (is_set b.source) _) _ h₁ in
      let (found, e₃, h₃) = >>=-eq-ok (lease_accept_checks cfg l b skip) _ h₂ in
      let (written, e₄, h₄) =
        >>=-eq-ok
          (commit_block_write (accept_commit l b found.0 found.1) (prepare_block_write l b).1 l) _
          h₃ in
      let m =
        replaced l b LeaseState.created LeaseState.accepted (λ x. accepted_lease b found.0 found.1)
          (accept_commit l b found.0 found.1) written (λ x. refl) (require_inv _ _ set) refl refl
          (λ x e. accept_effect l b found.0 found.1)
          (commit-Committed (accept_commit l b found.0 found.1) _ l written idle e₄) in
      subst
        (λ x. Moves b.source LeaseState.created LeaseState.accepted l.store.leases x.store.leases)
        (ok_injective h₄) m
