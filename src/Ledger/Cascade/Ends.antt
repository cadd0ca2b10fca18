-- ===== src/Ledger/Cascade/Ends.antt =====
-- Planning a cascade ends (core/rollback.go: planCascade, planRollbackOfSend, planRollbackFrom).
use xe.Prelude.{
  ℕ, zero, suc, ◌+◌, ◌≤◌, ◌<◌, ◌≡◌, refl, arith, String, false, not, ◌&&◌, some, List, [], ◌∷◌,
  Result, ok, err, leb, str_eq, if◌then◌else◌, length, All, Bool-cases, inl, inr, Option-cases,
  eq_refl,
}
use xe.Map.{lookup}
use xe.Types.{Block}
use xe.Attestation.{contains}
use xe.Bytes.{drop}
use xe.Ledger.{Ledger}
use xe.Ledger.Height.{chain_of, final_height}
use xe.Ledger.Cascade.Chains.{All-map, All-drop, All-newest_first, All-lookup}
use xe.Ledger.Cascade.{
  CascadePlan, Planned, ◌then_plan◌, is_send, is_reversible, receive_index, newest_first,
  is_pending, spent, append_step, plan_blocks, plan_rollback_from, plan_rollback_of_send,
  all_blocks, plan_fuel, plan_cascade,
}

-- The blocks that are not in a plan.
abbrev pub unplanned : List String → List Block → ℕ
unplanned planned [] = 0
unplanned planned (b ∷ rest) = (if contains b.hash planned then 0 else 1) + unplanned planned rest

unplanned_bound : (planned : List String) (bs : List Block) → unplanned planned bs ≤ length bs
unplanned_bound planned [] = omega arith
unplanned_bound planned (b ∷ rest) = elim (Bool-cases (contains b.hash planned)) [
  | inl e ↦ rw e (omega (arith, unplanned_bound planned rest))
  | inr e ↦ rw e (omega (arith, unplanned_bound planned rest))
]

unplanned_mono :
    (h : String) (planned : List String) (bs : List Block)
    → unplanned (h ∷ planned) bs ≤ unplanned planned bs
unplanned_mono h planned [] = omega arith
unplanned_mono h planned (b ∷ rest) = elim (Bool-cases (str_eq h b.hash)) [
  | inl e ↦ rw e (omega (arith, unplanned_mono h planned rest))
  | inr e ↦ rw e (omega (arith, unplanned_mono h planned rest))
]

-- Planning the block takes it off the count.
Drops : List Block → Block → Type 0
Drops bs b =
    (planned : List String)
    → contains b.hash planned ≡ false
    → unplanned (b.hash ∷ planned) bs < unplanned planned bs

Drops-later :
    (c b : Block) (rest : List Block) (planned : List String)
    → unplanned (c.hash ∷ planned) rest < unplanned planned rest
    → unplanned (c.hash ∷ planned) (b ∷ rest) < unplanned planned (b ∷ rest)
Drops-later c b rest planned h = elim (Bool-cases (str_eq c.hash b.hash)) [
  | inl e ↦ rw e (omega arith)
  | inr e ↦ rw e (omega arith)
]

own-Drops : (bs : List Block) → All (Drops bs) bs
unfolding Drops
own-Drops [] = tt
own-Drops (b ∷ rest) = (
  λ planned fresh. rw (fresh, eq_refl b.hash) (omega (arith, unplanned_mono b.hash planned rest)),
  All-map rest (λ c h planned fresh. Drops-later c b rest planned (h planned fresh))
      (own-Drops rest),
)

-- There is an answer, and it leaves no more than `n` blocks to plan.
abbrev Shrinks : List Block → ℕ → Result CascadePlan → Type 0
Shrinks bs n (ok done) = unplanned done.planned bs ≤ n
Shrinks bs n (err e) = Unit

abbrev Answers : List Block → ℕ → Planned CascadePlan → Type 0
Answers bs n p = (r : Result CascadePlan) × (p ≡ some r) × Shrinks bs n r

then_plan-Answers :
    (bs : List Block) (m n : ℕ) (p : Planned CascadePlan)
    (after : CascadePlan → Planned CascadePlan)
    → Answers bs m p
    → ((done : CascadePlan) → unplanned done.planned bs ≤ m → Answers bs n (after done))
    → Answers bs n (p then_plan after)
then_plan-Answers bs m n p after (ok done, e, small) go_on = rw e (go_on done small)
then_plan-Answers bs m n p after (err x, e, u) go_on = rw e (err x, refl, tt)

module _ (l : Ledger) where
  abbrev bs : List Block
  bs = all_blocks l.store.chains

  abbrev Ends : ℕ → (String → CascadePlan → Planned CascadePlan) → Type 0
  Ends fuel of_send =
      (hash : String) (plan : CascadePlan)
      → unplanned plan.planned bs < fuel
      → Answers bs (unplanned plan.planned bs) (of_send hash plan)

  module _ (fuel : ℕ) (of_send : String → CascadePlan → Planned CascadePlan)
      (ends : Ends fuel of_send) (unsupported account : String) where
    spent-Answers :
        (b : Block) (plan : CascadePlan)
        → unplanned plan.planned bs < fuel
        → Answers bs (unplanned plan.planned bs) (spent of_send unsupported l account b plan)
    spent-Answers b plan enough = elim (Bool-cases (is_send b.type && not (is_pending l b.hash))) [
      | inl e ↦ rw (spent, e) (ends b.hash plan enough)
      | inr e ↦ rw (spent, e) (ok plan, refl, omega arith)
    ]

    plan_blocks-Answers :
        (todo : List Block) (plan : CascadePlan) (n : ℕ)
        → All (Drops bs) todo
        → unplanned plan.planned bs ≤ n
        → n ≤ fuel
        → Answers bs n (plan_blocks of_send unsupported l account todo plan)
    unfolding plan_blocks Drops
    plan_blocks-Answers [] plan n drops left enough = (ok plan, refl, left)
    plan_blocks-Answers (b ∷ rest) plan n (drop_b, drops) left enough =
        elim (Bool-cases (contains b.hash plan.planned)) [
          | inl e ↦ rw (plan_blocks, e) (plan_blocks-Answers rest plan n drops left enough)
          | inr e ↦
              rw (plan_blocks, e)
                (elim (Bool-cases (is_reversible b.type)) [
                  | inr k ↦ rw k (err unsupported, refl, tt)
                  | inl k ↦
                      (let next : CascadePlan = record plan { planned = b.hash ∷ plan.planned } in
                        let fewer = drop_b plan.planned e in
                        rw k (
                          then_plan-Answers bs (unplanned next.planned bs) n
                            (spent of_send unsupported l account b next) _
                            (spent-Answers b next (omega arith))
                            (λ done small.
                              plan_blocks-Answers rest
                                (append_step of_send unsupported l account b done) n drops
                                (omega arith) enough)))
                ])
        ]

  plan_rollback_from-Answers :
      (fuel : ℕ) (of_send : String → CascadePlan → Planned CascadePlan)
      → Ends fuel of_send
      → (account consumed : String) (plan : CascadePlan) → unplanned plan.planned bs ≤ fuel
      → Answers bs (unplanned plan.planned bs) (plan_rollback_from of_send l account consumed plan)
  unfolding plan_rollback_from
  plan_rollback_from-Answers fuel of_send ends account consumed plan enough =
      elim (Option-cases (receive_index consumed (chain_of l account))) [
        | inl e ↦ rw (plan_rollback_from, e) (ok plan, refl, omega arith)
        | inr (i, e) ↦
            rw (plan_rollback_from, e)
              (elim (Bool-cases (leb (i + 1) (final_height l account))) [
                | inl k ↦ rw k (
                  err
                      "cascade: refusing to roll back finalized block at height %d (final height %d) on %s",
                  refl,
                  tt,
                )
                | inr k ↦ rw k (
                    plan_blocks-Answers fuel of_send ends _ account
                      (newest_first (drop i (chain_of l account))) plan (unplanned plan.planned bs)
                      (All-newest_first (Drops bs) (drop i (chain_of l account)) (
                        All-drop (Drops bs) i (chain_of l account)
                          (All-lookup (Drops bs) account l.store.chains (own-Drops bs))))
                      (omega arith) enough)
              ])
      ]

  plan_rollback_of_send-Ends : (fuel : ℕ) → Ends fuel (plan_rollback_of_send fuel l)
  unfolding plan_rollback_of_send
  plan_rollback_of_send-Ends zero hash plan enough = absurd (omega arith)
  plan_rollback_of_send-Ends (suc fuel) hash plan enough =
      elim (Option-cases (lookup hash l.store.pending)) [
        | inr (ps, e) ↦ rw (plan_rollback_of_send, e) (ok plan, refl, omega arith)
        | inl e ↦
            rw (plan_rollback_of_send, e)
              (elim (Option-cases (lookup hash l.store.blocks)) [
                | inl k ↦ rw k (ok plan, refl, omega arith)
                | inr (send, k) ↦ rw k (elim (Bool-cases (str_eq send.destination "")) [
                  | inl d ↦ rw d (ok plan, refl, omega arith)
                  | inr d ↦ rw d (
                      plan_rollback_from-Answers fuel (plan_rollback_of_send fuel l)
                        (plan_rollback_of_send-Ends fuel) send.destination hash plan (omega arith))
                ])
              ])
      ]

-- Planning a cascade always has an answer, a plan or a refusal: the calls that nest are no more than the
-- blocks of the ledger, since each plans a block that no call around it has planned.
pub plan_cascade-ends :
    (l : Ledger) (hash : String) (planned : List String)
    → (answer : Result CascadePlan) × (plan_cascade l hash planned ≡ some answer)
unfolding plan_cascade
plan_cascade-ends l hash planned =
    let plan : CascadePlan = record { planned = planned; steps = [] } in
    let (answer, e, small) =
      plan_rollback_of_send-Ends l (plan_fuel l) hash plan
        (omega (arith, unplanned_bound planned (all_blocks l.store.chains))) in
    (answer, e)
