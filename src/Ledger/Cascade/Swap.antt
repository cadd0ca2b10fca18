-- ===== src/Ledger/Cascade/Swap.antt =====
-- The promotion of a fork's winner: core/ledger.go (SwapBlock, swapBlockLocked) and
-- core/cascade_commit.go (newCascadeBuild, addUndo, activateCascade, deactivateCascade).
pub mod Above
pub mod Kept
use xe.Prelude.{
  ℕ, suc, ◌+◌, String, Bool, true, false, not, ◌&&◌, Option, none, some, List, [], ◌∷◌, ◌++◌,
  Result, ok, err, ◌>>=◌, some_or, when_some, leb, str_eq, if◌then◌else◌,
}
use xe.Map.{Map, lookup, insert, delete}
use xe.Types.{Block, BlockType, AccountChain, BlockUndo}
use xe.Bytes.{drop}
use xe.Store.{is_set}
use xe.Ledger.{Ledger, CascadeBuild, MemApply}
use xe.Ledger.Height.{chain_of, final_height, height_in}
use xe.Ledger.Undo.{build_block_undo}
use xe.Ledger.Credential.{verify_block}
use xe.Ledger.Admission.{Node, dispatch_validate_and_add}
use xe.Ledger.Cascade.{
  CascadePlan, CascadeStep, Planned, ◌then_plan◌, is_send, newest_first, plan_blocks,
  plan_rollback_of_send, plan_fuel, plan_cascade,
}

abbrev pub new_cascade_build : String → CascadeBuild
new_cascade_build winner_hash = record {
  winner_hash = winner_hash;
  undos = [];
  mem_applies = [];
  chains = [];
  add_pending = [];
  del_pending = [];
  restore_lease = [];
  delete_lease = [];
  delete_keyset = [];
  delegation = [];
  delegated = [];
}

-- The steps of `addUndo`, each where its part of the undo is set.
abbrev note_pending : BlockUndo → CascadeBuild → CascadeBuild
note_pending undo cb = when_some undo.add_pending cb (λ p. record cb {
  add_pending = insert p.send_hash p cb.add_pending;
  del_pending = delete p.send_hash cb.del_pending;
})

abbrev note_no_pending : BlockUndo → CascadeBuild → CascadeBuild
note_no_pending undo cb =
    if is_set undo.delete_pending_id
    then record cb {
      del_pending = insert undo.delete_pending_id true cb.del_pending;
      add_pending = delete undo.delete_pending_id cb.add_pending;
    }
    else cb

abbrev note_lease : BlockUndo → CascadeBuild → CascadeBuild
note_lease undo cb = when_some undo.restore_lease cb (λ r. record cb {
  restore_lease = insert r.lease_hash r cb.restore_lease;
  delete_lease = delete r.lease_hash cb.delete_lease;
})

abbrev note_no_lease : BlockUndo → CascadeBuild → CascadeBuild
note_no_lease undo cb =
    if is_set undo.delete_lease_hash
    then record cb {
      delete_lease = insert undo.delete_lease_hash true cb.delete_lease;
      restore_lease = delete undo.delete_lease_hash cb.restore_lease;
    }
    else cb

abbrev note_keyset : BlockUndo → CascadeBuild → CascadeBuild
note_keyset undo cb =
    if is_set undo.delete_keyset_account
    then record cb { delete_keyset = insert undo.delete_keyset_account true cb.delete_keyset }
    else cb

abbrev note_delegation : BlockUndo → CascadeBuild → CascadeBuild
note_delegation undo cb =
    if undo.restore_delegation
    then record cb {
      delegation = insert undo.account undo.prev_rep cb.delegation;
      delegated = insert undo.account true cb.delegated;
    }
    else cb

unfoldable pub add_undo : CascadeBuild → BlockUndo → MemApply → CascadeBuild
add_undo cb undo apply =
    let begun : CascadeBuild = record cb {
      undos = cb.undos ++ undo ∷ [];
      mem_applies = cb.mem_applies ++ apply ∷ [];
      chains = insert undo.account undo.chain cb.chains;
    } in
    note_delegation undo (
      note_keyset undo
        (note_no_lease undo (note_lease undo (note_no_pending undo (note_pending undo begun)))))

-- The loop that builds the undos of the steps, from the chains that the steps before have left.
unfoldable pub build_cascade :
    Ledger → Map AccountChain → CascadeBuild → List CascadeStep → Result CascadeBuild
build_cascade l snapshots cb [] = ok cb
build_cascade l snapshots cb ((account, b) ∷ rest) = do
  snap ←
      when_some (lookup account snapshots)
        (some_or (lookup account l.store.chains) "SwapBlock: account %s vanished under the cascade")
        (λ ch. ok ch)
  built ← build_block_undo l account b (some snap)
  build_cascade l (insert account built.0.chain snapshots) (add_undo cb built.0 built.1) rest

-- `activateCascade`, from the cascade that is active.
abbrev pub activate_over : Option CascadeBuild → CascadeBuild → Ledger → Result Ledger
activate_over none cb l = ok (record l { active_cascade = some cb })
activate_over (some active) cb l =
    err
      "activateCascade: a conflict promotion is already in progress (winner %s) — promotions must be serialized"

abbrev pub activate_cascade : CascadeBuild → Ledger → Result Ledger
activate_cascade cb l = activate_over l.active_cascade cb l

abbrev pub deactivate_cascade : Ledger → Ledger
deactivate_cascade l = record l { active_cascade = none }

-- The blocks above the one at index `i`, with what has followed from them.
abbrev pub plan_above : Ledger → String → ℕ → Planned CascadePlan
plan_above l account i =
    plan_blocks (plan_rollback_of_send (plan_fuel l) l)
      "SwapBlock: cannot unwind descendant %q (%s) of the replaced block — reversing its side-effects is not yet implemented"
      l account (newest_first (drop (suc i) (chain_of l account)))
      (record { planned = []; steps = [] })

-- Those, and what has followed from the replaced block where it is a send.
abbrev pub plan_followed : Ledger → Block → CascadePlan → Planned (List CascadeStep)
plan_followed l old_block above = elim (is_send old_block.type) [
  | true ↦ plan_cascade l old_block.hash above.planned then_plan λ followed.
      some (ok (above.steps ++ followed.steps))
  | false ↦ some (ok above.steps)
]

-- Those, and the replaced block at the end.
unfoldable pub plan_swap : Ledger → String → ℕ → Block → Planned (List CascadeStep)
plan_swap l account i old_block = plan_above l account i then_plan λ above.
    plan_followed l old_block above then_plan λ steps.
    some (ok (steps ++ (account, old_block) ∷ []))

-- The winner is handled with the cascade active; what it has not written is not written.
abbrev pub try_winner : Node → Ledger → Block → Result Ledger → Ledger × Result (Unit {0})
try_winner node l new_block (err e) = (l, err e)
try_winner node l new_block (ok active) =
    let tried = dispatch_validate_and_add node active new_block true in
    (deactivate_cascade tried.0, tried.1)

abbrev pub with_cascade : Node → Ledger → Block → Result CascadeBuild → Ledger × Result (Unit {0})
with_cascade node l new_block (err e) = (l, err e)
with_cascade node l new_block (ok cb) = try_winner node l new_block (activate_cascade cb l)

unfoldable pub promote :
    Node → Ledger → String → Block → List CascadeStep → Ledger × Result (Unit {0})
promote node l new_hash new_block steps =
    with_cascade node l new_block (build_cascade l [] (new_cascade_build new_hash) steps)

abbrev pub promote_plan :
    Node
    → Ledger
    → String
    → Block
    → Planned (List CascadeStep)
    → Option (Ledger × Result (Unit {0}))
promote_plan node l new_hash new_block none = none
promote_plan node l new_hash new_block (some (err e)) = some (l, err e)
promote_plan node l new_hash new_block (some (ok steps)) =
    some (promote node l new_hash new_block steps)

-- Where the block with a hash stands.
abbrev find_block : String → ℕ → List Block → Option (ℕ × Block)
find_block hash i [] = none
find_block hash i (b ∷ rest) = elim (str_eq b.hash hash) [
  | true ↦ some (i, b)
  | false ↦ find_block hash (suc i) rest
]

unfoldable pub swap_block_locked :
    Node → Ledger → String → String → String → Block → Option (Ledger × Result (Unit {0}))
swap_block_locked node l account old_hash new_hash new_block =
    elim (lookup account l.store.chains) [
      | none ↦ some (l, err "SwapBlock: account %s not found")
      | some chain ↦ elim (find_block old_hash 0 chain) [
        | none ↦ some (l, err "SwapBlock: block %s not found in chain")
        | some (i, old_block) ↦ elim (leb (suc i) (final_height l account)) [
          | true ↦ some (
            l,
            err "SwapBlock: refusing to replace finalized block %s at height %d (final height %d)",
          )
          | false ↦ promote_plan node l new_hash new_block (plan_swap l account i old_block)
        ]
      ]
    ]

abbrev pub verified_swap :
    Node
    → Ledger
    → String
    → String
    → String
    → Block
    → Result (Unit {0})
    → Option (Ledger × Result (Unit {0}))
verified_swap node l account old_hash new_hash new_block (err e) = some (l, err e)
verified_swap node l account old_hash new_hash new_block (ok done) =
    swap_block_locked node l account old_hash new_hash new_block

unfoldable pub swap_block :
    Node → Ledger → String → String → String → Block → Option (Ledger × Result (Unit {0}))
swap_block node l account old_hash new_hash new_block =
    verified_swap node l account old_hash new_hash new_block (verify_block node.host new_block)
