-- ===== src/Ledger/Undo/Chain.antt =====
-- What the undo of a block does to the chains (core/rollback.go, store/mem_store.go).
use xe.Prelude.{
  ◌&&◌, String, ◌≡◌, ◌∙◌, ap, sym, ok, ok_injective, when_some, if◌then◌else◌, >>=-eq-ok, require,
  fail_if, drop_last, [],
}
use xe.Map.{Map, lookup, insert, delete}
use xe.Word.{sub_u64}
use xe.Types.{Block, BlockUndo, AccountChain}
use xe.Store.{
  MemStore, is_set, delete_pending, update_pending, undo_pending, undo_account, apply_undo,
}
use xe.Ledger.{Ledger}
use xe.Ledger.Commit.{apply_mem}
use xe.Ledger.Effect.{Kept, Kept-trans, add-Kept, delete-Kept, top_up-Kept}
use xe.Ledger.Undo.{
  build_block_undo, undo_block_apply, undo_of, reversal_of, ends_with, needs_lease, is_none,
  no_blocks,
}

module _ (u : BlockUndo) (m : MemStore) where
  abbrev reduced : MemStore
  reduced =
      if is_set u.reduce_pending_id
      then update_pending (λ a. sub_u64 a u.reduce_pending_amount) u.reduce_pending_id m
      else m

  abbrev deleted : MemStore
  deleted =
      if is_set u.delete_pending_id then delete_pending u.delete_pending_id reduced else reduced

  undo_pending-Kept : Kept m (undo_pending u m)
  unfolding undo_pending
  undo_pending-Kept =
      Kept-trans m reduced (undo_pending u m)
        (top_up-Kept m (is_set u.reduce_pending_id) (λ a. sub_u64 a u.reduce_pending_amount)
          u.reduce_pending_id)
        (Kept-trans reduced deleted (undo_pending u m)
          (delete-Kept reduced (is_set u.delete_pending_id) u.delete_pending_id)
          (add-Kept deleted u.add_pending))

-- The chains without the last block of an account.
abbrev pub shortened : String → AccountChain → Map AccountChain → Map AccountChain
shortened account chain chains =
    if no_blocks chain then delete account chains else insert account chain chains

apply_undo-chains :
    (account : String) (chain : AccountChain) (u : BlockUndo) (m : MemStore)
    → u.account ≡ account
    → u.chain ≡ chain
    → u.delete_account ≡ no_blocks chain
    → (apply_undo u m).chains ≡ shortened account chain m.chains
unfolding apply_undo undo_account
apply_undo-chains account chain u m ha hc hd =
    (undo_pending-Kept u (undo_account u m)).1 ∙ rw (ha, hc, hd)

-- The chains after an undo: the account's chain without its last block.
pub undo-chains :
    (l : Ledger) (account : String) (b : Block) {l' : Ledger}
    → undo_block_apply l account b ≡ ok l'
    → l'.store.chains
      ≡ shortened account
          (drop_last (when_some (lookup account l.store.chains) [] (λ ch. ch)))
          l.store.chains
unfolding undo_block_apply build_block_undo apply_mem
undo-chains l account b {l'} h =
    let (u, built, h₁) =
      >>=-eq-ok (build_block_undo l account b (lookup account l.store.chains)) _ h in
    let (u₁, e₁, b₁) =
      >>=-eq-ok (require (ends_with (lookup account l.store.chains) b.hash) _) _ built in
    let (r, e₂, b₂) = >>=-eq-ok (reversal_of l b b.type) _ b₁ in
    let (u₃, e₃, b₃) = >>=-eq-ok (fail_if (needs_lease b.type && is_none r.restore_lease) _) _ b₂ in
    let chain = drop_last (when_some (lookup account l.store.chains) [] (λ ch. ch)) in
    let same : undo_of account b chain r ≡ u.0 = ap (λ x. x.0) (ok_injective b₃) in
    ap (λ x. x.store.chains) (sym (ok_injective h₁))
    ∙ apply_undo-chains account chain u.0 l.store (ap (λ x. x.account) (sym same))
        (ap (λ x. x.chain) (sym same)) (ap (λ x. x.delete_account) (sym same))
