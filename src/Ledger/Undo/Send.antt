-- ===== src/Ledger/Undo/Send.antt =====
-- Taking back a send that has just been accepted (core/rollback.go, undoBlockApply).
use xe.Prelude.{
  ℕ, String, ◌≡◌, refl, ◌∙◌, sym, arith, true, false, some, ok, [], ◌∷◌, ◌++◌, str_eq, eq_iff,
  Bool-cases, inl, inr, eq_refl, get_last?-append_one, drop_last-append_one,
}
use xe.Map.{lookup, insert, delete, lookup-insert, delete-insert}
use xe.Types.{Block, BlockType, AccountChain, frontier}
use xe.Store.{is_set, undo_pending, undo_account, apply_undo}
use xe.Ledger.{
  Ledger, asset_or_xe, get_asset_balance, set_asset_balance, asset_balance_on_chain,
  xusd_balance_on_chain,
}
use xe.Ledger.Commit.{apply_mem}
use xe.Ledger.Effect.{delete_stage}
use xe.Ledger.Idle.{asset_or_xe_valid}
use xe.Ledger.Invariant.{IsSound, IsNew}
use xe.Ledger.Transfer.{validate_and_add_send, pending_of}
use xe.Ledger.Transfer.Accepted.{send_accepted}
use xe.Ledger.Transfer.Sound.{get-set_asset_balance}
use xe.Ledger.Transfer.Cached.{IsCached}
use xe.Ledger.Undo.{
  Reversal, no_reversal, build_block_undo, undo_block_apply, undo_of, apply_of, reversal_of,
  no_blocks, parent_balance,
}
use xe.Ledger.Undo.Chain.{undo-chains}

abbrev send_reversal : Block → Reversal
send_reversal b = record no_reversal { delete_pending_id = b.hash }

module _ (l : Ledger) (b : Block) (old : AccountChain) where
  abbrev whole : AccountChain
  whole = old ++ b ∷ []

  build_send :
      b.type ≡ BlockType.send
      → build_block_undo l b.account b (some whole)
        ≡ ok (
          undo_of b.account b old (send_reversal b),
          apply_of l b.account b whole (send_reversal b),
        )
  unfolding build_block_undo reversal_of
  build_send h =
      rw (get_last?-append_one old b, eq_refl b.hash, drop_last-append_one old b) (simp h)

  -- The ledger that the undo leaves.
  taken_back : Ledger
  taken_back =
      apply_mem (apply_of l b.account b whole (send_reversal b))
        (record l { store = apply_undo (undo_of b.account b old (send_reversal b)) l.store })

  undo_send :
      lookup b.account l.store.chains ≡ some whole
      → b.type ≡ BlockType.send
      → undo_block_apply l b.account b ≡ ok taken_back
  unfolding undo_block_apply taken_back
  undo_send found h = rw (found, build_send h)

  undo-pending : is_set b.hash ≡ true → taken_back.store.pending ≡ delete b.hash l.store.pending
  unfolding taken_back apply_mem apply_undo undo_pending undo_account
  undo-pending h =
      delete_stage (undo_account (undo_of b.account b old (send_reversal b)) l.store)
        (is_set b.hash) b.hash
      ∙ rw h

  undo-balances :
      no_blocks old ≡ false
      → taken_back.asset_balances
        ≡ set_asset_balance b.account
            (asset_or_xe b.asset)
            (parent_balance l b old)
            l.asset_balances
  unfolding taken_back apply_mem
  undo-balances h = rw (drop_last-append_one old b, h)

-- The chain is not empty where its frontier is not "0".
nonempty :
    (chain : AccountChain) (previous : String)
    → previous ≡ frontier chain
    → str_eq previous "0" ≡ false
    → no_blocks chain ≡ false
unfolding frontier
nonempty [] previous e ne = cc (rw e at ne)
nonempty (b ∷ rest) previous e ne = refl

module _ (l : Ledger) (b : Block) (sound : IsSound l) (new : IsNew l b) where
  -- Setting a balance twice, and back to what it was, shows what it showed.
  restored_balance :
      (k s : String) (v : ℕ)
      → v ≡ get_asset_balance l.asset_balances b.account b.asset
      → get_asset_balance
          (set_asset_balance b.account b.asset v
            (set_asset_balance b.account b.asset b.balance l.asset_balances))
          k
          s
        ≡ get_asset_balance l.asset_balances k s
  restored_balance k s v h =
      rw
        (
          get-set_asset_balance k s b.account b.asset v
              (set_asset_balance b.account b.asset b.balance l.asset_balances),
          get-set_asset_balance k s b.account b.asset b.balance l.asset_balances,
        )
        (ground (arith, eq_iff b.account k, eq_iff b.asset s, h))

  parent-cached :
      (l' : Ledger) (chain : AccountChain)
      → l'.store.leases ≡ l.store.leases
      → lookup b.account l.store.chains ≡ some chain
      → IsCached l
      → xusd_balance_on_chain l.store.leases chain ≡ asset_balance_on_chain chain "XUSD"
      → str_eq b.previous "0" ≡ false
      → parent_balance l' b chain ≡ get_asset_balance l.asset_balances b.account b.asset
  unfolding parent_balance
  parent-cached l' chain leases found cached unstaked ne =
      elim (Bool-cases (str_eq b.asset "XUSD")) [
        | inl e ↦
            (let xusd : b.asset ≡ "XUSD" = (eq_iff b.asset "XUSD").0 e in
              rw (ne, xusd, leases, unstaked) (sym (rw found at (cached.agrees b.account "XUSD"))))
        | inr e ↦
            rw (ne, asset_or_xe_valid b.asset new.asset, e)
              (sym (rw found at (cached.agrees b.account b.asset)))
      ]

-- What a send changes is as it was: the chains, the pending sends and the cached balances.
pub record Restored (l l' : Ledger) : Type 0 where
  pub chains : (k : String) → lookup k l'.store.chains ≡ lookup k l.store.chains
  pub pending : l'.store.pending ≡ l.store.pending
  pub balances :
      (k s : String)
      → get_asset_balance l'.asset_balances k s ≡ get_asset_balance l.asset_balances k s

-- A send that a sound ledger has just accepted can be taken back: the undo succeeds, and the chains
-- and cached balances show what they showed before the send, and the pending sends are the same. The
-- send's hash is set and its previous hash is not "0", the cache agrees with the chains, and no
-- settlement on the account's chain has credited a stake.
pub send-undo :
    (l : Ledger) (b : Block) (chain : AccountChain) {l' : Ledger}
    → IsSound l
    → IsNew l b
    → IsCached l
    → b.type ≡ BlockType.send
    → is_set b.hash ≡ true
    → str_eq b.previous "0" ≡ false
    → lookup b.account l.store.chains ≡ some chain
    → xusd_balance_on_chain l.store.leases chain ≡ asset_balance_on_chain chain "XUSD"
    → validate_and_add_send l b ≡ ok l'
    → (l'' : Ledger) × (undo_block_apply l' b.account b ≡ ok l'') × Restored l l''
send-undo l b chain {l'} sound new cached type set ne found unstaked h =
    let (ch, found', d, positive, w) = send_accepted l b sound.idle h in
    let extended : l'.store.chains ≡ insert b.account (chain ++ b ∷ []) l.store.chains =
      rw found at w.chains in
    let on_chain : lookup b.account l'.store.chains ≡ some (chain ++ b ∷ []) =
      rw
        (
          extended,
          lookup-insert b.account b.account (chain ++ b ∷ []) l.store.chains,
          eq_refl b.account,
        )
        refl in
    let undone = undo_send l' b chain on_chain type in
    let ch≡ : some ch ≡ some chain = sym found' ∙ found in
    let opened : no_blocks chain ≡ false = nonempty chain b.previous (cc) ne in
    (
      taken_back l' b chain,
      undone,
      record {
        chains = λ k.
            rw
              (
                undo-chains l' b.account b undone,
                on_chain,
                drop_last-append_one chain b,
                opened,
                extended,
              )
              (ground (
                arith,
                lookup-insert k b.account chain (insert b.account (chain ++ b ∷ []) l.store.chains),
                lookup-insert k b.account (chain ++ b ∷ []) l.store.chains,
                eq_iff b.account k,
                found,
              ));
        pending =
            rw (undo-pending l' b chain set, w.pending)
              (delete-insert b.hash (pending_of b b.asset) l.store.pending
                (sound.sent b.hash new.fresh));
        balances = λ k s.
            rw
              (
                undo-balances l' b chain opened,
                parent-cached l b sound new l' chain w.leases found cached unstaked ne,
                w.balances,
                asset_or_xe_valid b.asset new.asset,
              )
              (restored_balance l b sound new k s _ refl);
      },
    )
