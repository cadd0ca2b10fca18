-- ===== src/Ledger/Cascade/Swap/Above.antt =====
-- What a promotion takes back is not final (core/rollback.go: planCascade; core/ledger.go: SwapBlock).
use xe.Prelude.{
  ℕ, zero, suc, ◌+◌, ◌≤◌, ◌<◌, ◌≡◌, refl, arith, String, not, ◌&&◌, none, some, List, [], ◌∷◌, ◌++◌,
  ok, err, leb, str_eq, get_elem?, All, Bool-cases, Option-cases, inl, inr, subst,
}
use xe.Map.{lookup}
use xe.Types.{Block}
use xe.Attestation.{contains}
use xe.Bytes.{drop}
use xe.Ledger.{Ledger}
use xe.Ledger.Height.{chain_of, final_height}
use xe.Ledger.Cascade.{
  CascadePlan, CascadeStep, Planned, ◌then_plan◌, is_send, is_reversible, receive_index,
  newest_first, spent, append_step, is_pending, plan_blocks, plan_rollback_from,
  plan_rollback_of_send, plan_fuel, plan_cascade,
}
use xe.Ledger.Cascade.Chains.{All-map, All-newest_first}
use xe.Ledger.Cascade.Swap.{plan_above, plan_followed, plan_swap}

-- The block stands at an index from `i` on.
StandsFrom : List Block → ℕ → Block → Type 0
StandsFrom xs i b = (j : ℕ) × (get_elem? xs j ≡ some b) × (i ≤ j)

drop-StandsFrom : (i : ℕ) (xs : List Block) → All (StandsFrom xs i) (drop i xs)
unfolding StandsFrom drop
drop-StandsFrom zero [] = tt
drop-StandsFrom (suc i) [] = tt
drop-StandsFrom zero (x ∷ xs) = (
  (0, refl, omega arith),
  All-map xs (λ b (j, e, h). (suc j, e, omega arith)) (drop-StandsFrom zero xs),
)
drop-StandsFrom (suc i) (x ∷ xs) =
    All-map (drop i xs) (λ b (j, e, h). (suc j, e, omega arith)) (drop-StandsFrom i xs)

-- A block of the account's chain above what is final there.
abbrev pub IsAbove : Ledger → CascadeStep → Type 0
IsAbove l (account, b) =
    (i : ℕ) × (get_elem? (chain_of l account) i ≡ some b) × (final_height l account < suc i)

module _ (P : CascadeStep → Type 0) where
  All-append_one : (xs : List CascadeStep) (y : CascadeStep) → All P xs → P y → All P (xs ++ y ∷ [])
  All-append_one [] y h p = (p, tt)
  All-append_one (x ∷ xs) y (q, h) p = (q, All-append_one xs y h p)

  All-join : (xs ys : List CascadeStep) → All P xs → All P ys → All P (xs ++ ys)
  All-join [] ys h k = k
  All-join (x ∷ xs) ys (p, h) k = (p, All-join xs ys h k)

module _ (l : Ledger) where
  -- If there is a plan, its steps are above what is final.
  abbrev SafeIn : {A : Type 0} → (A → List CascadeStep) → Planned A → Type 0
  SafeIn steps none = Unit
  SafeIn steps (some (err e)) = Unit
  SafeIn steps (some (ok a)) = All (IsAbove l) (steps a)

  abbrev Safe : Planned CascadePlan → Type 0
  Safe p = SafeIn (λ plan. plan.steps) p

  abbrev SafeCalls : (String → CascadePlan → Planned CascadePlan) → Type 0
  SafeCalls of_send =
      (hash : String) (plan : CascadePlan) → All (IsAbove l) plan.steps → Safe (of_send hash plan)

  then_plan-Safe :
      {A B : Type 0} (f : A → List CascadeStep) (g : B → List CascadeStep) (p : Planned A)
      (after : A → Planned B)
      → SafeIn f p
      → ((a : A) → All (IsAbove l) (f a) → SafeIn g (after a))
      → SafeIn g (p then_plan after)
  then_plan-Safe f g none after h k = tt
  then_plan-Safe f g (some (err e)) after h k = tt
  then_plan-Safe f g (some (ok a)) after h k = k a h

  newest_first-IsAbove :
      (account : String) (i : ℕ)
      → final_height l account < suc i
      → All (λ b. IsAbove l (account, b)) (newest_first (drop i (chain_of l account)))
  unfolding StandsFrom
  newest_first-IsAbove account i h =
      All-newest_first (λ b. IsAbove l (account, b)) (drop i (chain_of l account))
        (All-map (drop i (chain_of l account)) (λ b (j, e, k). (j, e, omega arith))
          (drop-StandsFrom i (chain_of l account)))

  module _ (of_send : String → CascadePlan → Planned CascadePlan) (safe : SafeCalls of_send)
      (unsupported account : String) where
    spent-Safe :
        (b : Block) (plan : CascadePlan)
        → All (IsAbove l) plan.steps
        → Safe (spent of_send unsupported l account b plan)
    spent-Safe b plan h = elim (Bool-cases (is_send b.type && not (is_pending l b.hash))) [
      | inl e ↦ rw (spent, e) (safe b.hash plan h)
      | inr e ↦ rw (spent, e) h
    ]

    plan_blocks-Safe :
        (todo : List Block) (plan : CascadePlan)
        → All (λ b. IsAbove l (account, b)) todo
        → All (IsAbove l) plan.steps
        → Safe (plan_blocks of_send unsupported l account todo plan)
    unfolding plan_blocks
    plan_blocks-Safe [] plan above h = h
    plan_blocks-Safe (b ∷ rest) plan (above_b, above) h =
        elim (Bool-cases (contains b.hash plan.planned)) [
          | inl e ↦ rw (plan_blocks, e) (plan_blocks-Safe rest plan above h)
          | inr e ↦
              rw (plan_blocks, e)
                (elim (Bool-cases (is_reversible b.type)) [
                  | inr k ↦ rw k tt
                  | inl k ↦
                      (let next : CascadePlan = record plan { planned = b.hash ∷ plan.planned } in
                        rw k (
                          then_plan-Safe (λ plan. plan.steps) (λ plan. plan.steps)
                            (spent of_send unsupported l account b next) _ (spent-Safe b next h)
                            (λ done g.
                              plan_blocks-Safe rest
                                (append_step of_send unsupported l account b done) above
                                (All-append_one (IsAbove l) done.steps (account, b) g above_b))))
                ])
        ]

  rollback_from-Safe :
      (of_send : String → CascadePlan → Planned CascadePlan)
      → SafeCalls of_send
      → (account consumed : String) (plan : CascadePlan) → All (IsAbove l) plan.steps
      → Safe (plan_rollback_from of_send l account consumed plan)
  unfolding plan_rollback_from
  rollback_from-Safe of_send safe account consumed plan h =
      elim (Option-cases (receive_index consumed (chain_of l account))) [
        | inl e ↦ rw (plan_rollback_from, e) h
        | inr (i, e) ↦
            rw (plan_rollback_from, e)
              (elim (Bool-cases (leb (i + 1) (final_height l account))) [
                | inl k ↦ rw k tt
                | inr k ↦
                    (let over : final_height l account < suc i = ground arith in
                      rw k (
                        plan_blocks-Safe of_send safe _ account
                          (newest_first (drop i (chain_of l account))) plan
                          (newest_first-IsAbove account i over) h))
              ])
      ]

  plan_rollback_of_send-Safe : (fuel : ℕ) → SafeCalls (plan_rollback_of_send fuel l)
  unfolding plan_rollback_of_send
  plan_rollback_of_send-Safe zero hash plan h = tt
  plan_rollback_of_send-Safe (suc fuel) hash plan h =
      elim (Option-cases (lookup hash l.store.pending)) [
        | inr (ps, e) ↦ rw (plan_rollback_of_send, e) h
        | inl e ↦
            rw (plan_rollback_of_send, e)
              (elim (Option-cases (lookup hash l.store.blocks)) [
                | inl k ↦ rw k h
                | inr (send, k) ↦ rw k (elim (Bool-cases (str_eq send.destination "")) [
                  | inl d ↦ rw d h
                  | inr d ↦ rw d (
                      rollback_from-Safe (plan_rollback_of_send fuel l)
                        (plan_rollback_of_send-Safe fuel) send.destination hash plan h)
                ])
              ])
      ]

  plan_cascade-Safe : (hash : String) (planned : List String) → Safe (plan_cascade l hash planned)
  unfolding plan_cascade
  plan_cascade-Safe hash planned =
      plan_rollback_of_send-Safe (plan_fuel l) hash (record { planned = planned; steps = [] }) tt

  plan_followed-Safe :
      (old_block : Block) (above : CascadePlan)
      → All (IsAbove l) above.steps
      → SafeIn (λ steps. steps) (plan_followed l old_block above)
  plan_followed-Safe old_block above h = elim (Bool-cases (is_send old_block.type)) [
    | inr e ↦ rw (plan_followed, e) h
    | inl e ↦
        rw (plan_followed, e)
          (then_plan-Safe {A = CascadePlan} (λ plan. plan.steps) (λ steps. steps)
            (plan_cascade l old_block.hash above.planned) _
            (plan_cascade-Safe old_block.hash above.planned)
            (λ followed k. All-join (IsAbove l) above.steps followed.steps h k))
  ]

  plan_swap-Safe :
      (account : String) (i : ℕ) (old_block : Block)
      → get_elem? (chain_of l account) i ≡ some old_block
      → final_height l account < suc i
      → SafeIn (λ steps. steps) (plan_swap l account i old_block)
  unfolding plan_swap
  plan_swap-Safe account i old_block found over =
      then_plan-Safe {A = CascadePlan} (λ plan. plan.steps) (λ steps. steps)
        (plan_above l account i) _
        (plan_blocks-Safe (plan_rollback_of_send (plan_fuel l) l)
          (plan_rollback_of_send-Safe (plan_fuel l)) _ account
          (newest_first (drop (suc i) (chain_of l account))) (record { planned = []; steps = [] })
          (newest_first-IsAbove account (suc i) (omega arith)) tt)
        (λ above h.
          then_plan-Safe (λ steps. steps) (λ steps. steps) (plan_followed l old_block above)
            (λ steps. some (ok (steps ++ (account, old_block) ∷ [])))
            (plan_followed-Safe old_block above h)
            (λ steps k. All-append_one (IsAbove l) steps (account, old_block) k (i, found, over)))

-- Whatever SwapBlock plans to take back for a block above what is final in its account, that block, the blocks
-- on top of it and, over any number of accounts, the blocks that have followed from them, is a block of its own
-- account's chain and above what is final there.
pub plan_swap-IsAbove :
    (l : Ledger) (account : String) (i : ℕ) (old_block : Block) (steps : List CascadeStep)
    → get_elem? (chain_of l account) i ≡ some old_block
    → final_height l account < suc i
    → plan_swap l account i old_block ≡ some (ok steps)
    → All (IsAbove l) steps
plan_swap-IsAbove l account i old_block steps found over h =
    subst (SafeIn l (λ s. s)) h (plan_swap-Safe l account i old_block found over)
