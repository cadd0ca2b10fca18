-- ===== src/Ledger/Cascade/Swap/Kept.antt =====
-- A promotion that is refused keeps the loser (core/ledger.go: SwapBlock).
use xe.Prelude.{
  suc, ◌≡◌, refl, sym, subst, ap, String, true, false, Option, none, some, List, [], Result, ok,
  err, leb, Bool-cases, Option-cases, inl, inr,
}
use xe.Map.{lookup}
use xe.Types.{Block}
use xe.Ledger.{Ledger, CascadeBuild}
use xe.Ledger.Height.{final_height}
use xe.Ledger.Admission.{Node}
use xe.Ledger.Admission.Refused.{Fills, Fills_refl, KeepsOnError, is_cancel, dispatch-KeepsOnError}
use xe.Ledger.Credential.{verify_block}
use xe.Ledger.Cascade.{CascadeStep, Planned}
use xe.Ledger.Cascade.Swap.{
  activate_cascade, activate_over, deactivate_cascade, activate_over, try_winner, with_cascade,
  promote_plan, verified_swap, build_cascade, new_cascade_build, find_block, plan_swap, promote,
  swap_block_locked, swap_block,
}

-- The caches filled while a cascade was active are those that are filled once it is not.
inactive_fills :
    (cb : CascadeBuild) (l : Ledger) {m : Ledger}
    → l.active_cascade ≡ none
    → Fills (record l { active_cascade = some cb }) m
    → Fills l (deactivate_cascade m)
inactive_fills cb l idle (Fills.filled keysets keys) =
    subst (λ a. Fills l (record l { keysets = keysets; account_keys = keys; active_cascade = a }))
      idle (Fills.filled keysets keys)

activates :
    (cb : CascadeBuild) (l : Ledger)
    → l.active_cascade ≡ none
    → activate_cascade cb l ≡ ok (record l { active_cascade = some cb })
activates cb l idle = ap (λ a. activate_over a cb l) idle

-- No answer, or one that keeps the ledger where it is an error.
abbrev Keeps : Ledger → Option (Ledger × Result (Unit {0})) → Type 0
Keeps l none = Unit
Keeps l (some r) = KeepsOnError l r

module _ (node : Node) (l : Ledger) (b : Block) (idle : l.active_cascade ≡ none)
    (never : is_cancel b.type ≡ false) where
  with_cascade-KeepsOnError :
      (built : Result CascadeBuild) → KeepsOnError l (with_cascade node l b built)
  with_cascade-KeepsOnError (err why) = λ e h. Fills_refl
  with_cascade-KeepsOnError (ok cb) =
      subst (λ r. KeepsOnError l (try_winner node l b r)) (sym (activates cb l idle))
        (λ e h.
          inactive_fills cb l idle
            (dispatch-KeepsOnError node b true never (record l { active_cascade = some cb }) e h))

  answer-Keeps :
      (new_hash : String) (plan : Planned (List CascadeStep))
      → Keeps l (promote_plan node l new_hash b plan)
  unfolding promote
  answer-Keeps new_hash none = tt
  answer-Keeps new_hash (some (err why)) = λ e h. Fills_refl
  answer-Keeps new_hash (some (ok steps)) =
      with_cascade-KeepsOnError (build_cascade l [] (new_cascade_build new_hash) steps)

  swap_block_locked-Keeps :
      (account old_hash new_hash : String)
      → Keeps l (swap_block_locked node l account old_hash new_hash b)
  unfolding swap_block_locked
  swap_block_locked-Keeps account old_hash new_hash =
      elim (Option-cases (lookup account l.store.chains)) [
        | inl e ↦ rw (swap_block_locked, e) (λ e h. Fills_refl)
        | inr (chain, e) ↦
            rw (swap_block_locked, e)
              (elim (Option-cases (find_block old_hash 0 chain)) [
                | inl k ↦ rw k (λ e h. Fills_refl)
                | inr ((i, old_block), k) ↦
                    rw k (elim (Bool-cases (leb (suc i) (final_height l account))) [
                      | inl f ↦ rw f (λ e h. Fills_refl)
                      | inr f ↦ rw f (answer-Keeps new_hash (plan_swap l account i old_block))
                    ])
              ])
      ]

  swap_block-Keeps :
      (account old_hash new_hash : String) → Keeps l (swap_block node l account old_hash new_hash b)
  unfolding swap_block
  swap_block-Keeps account old_hash new_hash =
      elim (verify_block node.host b)
        as (λ r. Keeps l (verified_swap node l account old_hash new_hash b r)) [
          | err e ↦ λ e h. Fills_refl
          | ok done ↦ swap_block_locked-Keeps account old_hash new_hash
        ]

-- A promotion that is refused, at whichever check, keeps the loser: with no cascade active, and for a winner of
-- any type but lease_cancel, the whole ledger is as it was, the store included, but for keysets and account keys
-- that were read into their caches.
pub refused_promotion_keeps :
    (node : Node) (l m : Ledger) (account old_hash new_hash : String) (b : Block) (e : String)
    → l.active_cascade ≡ none
    → is_cancel b.type ≡ false
    → swap_block node l account old_hash new_hash b ≡ some (m, err e)
    → Fills l m
refused_promotion_keeps node l m account old_hash new_hash b e idle never h =
    subst (Keeps l) h (swap_block-Keeps node l b idle never account old_hash new_hash) e refl
