-- ===== src/Ledger/Cascade.antt =====
-- What is taken back when a block loses its place: core/rollback.go (planCascade,
-- planRollbackOfSend, planRollbackFrom). A planner without an answer has run out of fuel.
pub mod Chains
pub mod Ends
pub mod Swap
use xe.Prelude.{
  ℕ, zero, suc, ◌+◌, String, Bool, true, false, not, ◌&&◌, Option, none, some, List, [], ◌∷◌, ◌++◌,
  Result, ok, err, leb, str_eq, if◌then◌else◌, length,
}
use xe.Map.{Map, lookup}
use xe.Types.{Block, BlockType, AccountChain}
use xe.Attestation.{contains}
use xe.Bytes.{drop}
use xe.Ledger.{Ledger}
use xe.Ledger.Height.{chain_of, final_height}

-- A `cascadeStep`: a block to take back, and its account.
abbrev pub CascadeStep : Type 0
CascadeStep = String × Block

-- The hashes in the map `planned`, and the steps so far.
pub record CascadePlan : Type 0 where
  pub planned : List String
  pub steps : List CascadeStep

-- An answer, unless the fuel has run out.
abbrev pub Planned : Type 0 → Type 0
Planned A = Option (Result A)

infixl 5 ◌then_plan◌
abbrev pub ◌then_plan◌ : {A B : Type 0} → Planned A → (A → Planned B) → Planned B
none then_plan after = none
some (err e) then_plan after = some (err e)
some (ok a) then_plan after = after a

abbrev pub is_send : BlockType → Bool
is_send BlockType.send = true
is_send _ = false

-- The types whose undo a cascade can carry.
abbrev pub is_reversible : BlockType → Bool
is_reversible BlockType.send = true
is_reversible BlockType.receive = true
is_reversible BlockType.burn = true
is_reversible BlockType.mint = true
is_reversible _ = false

abbrev is_receive_of : String → Block → BlockType → Bool
is_receive_of hash b BlockType.receive = str_eq b.source hash
is_receive_of hash b _ = false

-- Where the receive of a send stands.
unfoldable pub receive_index : String → List Block → Option ℕ
receive_index hash [] = none
receive_index hash (b ∷ rest) = elim (is_receive_of hash b b.type) [
  | true ↦ some 0
  | false ↦ elim (receive_index hash rest) [ none ↦ none | some i ↦ some (suc i) ]
]

abbrev pub newest_first : List Block → List Block
newest_first [] = []
newest_first (b ∷ rest) = newest_first rest ++ b ∷ []

abbrev is_pending : Ledger → String → Bool
is_pending l hash = elim (lookup hash l.store.pending) [ none ↦ false | some ps ↦ true ]

module _ (of_send : String → CascadePlan → Planned CascadePlan) (unsupported : String) (l : Ledger)
    (account : String) where
  -- The loop over the blocks of a chain, where `of_send` plans for a send that is no more pending.
  abbrev spent : Block → CascadePlan → Planned CascadePlan
  spent b plan = elim (is_send b.type && not (is_pending l b.hash)) [
    | true ↦ of_send b.hash plan
    | false ↦ some (ok plan)
  ]

  abbrev append_step : Block → CascadePlan → CascadePlan
  append_step b plan = record plan { steps = plan.steps ++ (account, b) ∷ [] }

  unfoldable pub plan_blocks : List Block → CascadePlan → Planned CascadePlan
  plan_blocks [] plan = some (ok plan)
  plan_blocks (b ∷ rest) plan = elim (contains b.hash plan.planned) [
    | true ↦ plan_blocks rest plan
    | false ↦ elim (is_reversible b.type) [
      | false ↦ some (err unsupported)
      | true ↦ spent b (record plan { planned = b.hash ∷ plan.planned }) then_plan λ done.
          plan_blocks rest (append_step b done)
    ]
  ]

-- `planRollbackFrom`
unfoldable pub plan_rollback_from :
    (String → CascadePlan → Planned CascadePlan)
    → Ledger
    → String
    → String
    → CascadePlan
    → Planned CascadePlan
plan_rollback_from of_send l account consumed plan =
    elim (receive_index consumed (chain_of l account)) [
      | none ↦ some (ok plan)
      | some i ↦ elim (leb (i + 1) (final_height l account)) [
        | true ↦ some (
            err
              "cascade: refusing to roll back finalized block at height %d (final height %d) on %s")
        | false ↦
            plan_blocks of_send
              "cascade: unsupported block type %q (%s) on %s — reversing its lease/keyset/reputation side-effects is not yet implemented"
              l account (newest_first (drop i (chain_of l account))) plan
      ]
    ]

-- `planRollbackOfSend`
unfoldable pub plan_rollback_of_send : ℕ → Ledger → String → CascadePlan → Planned CascadePlan
plan_rollback_of_send zero l hash plan = none
plan_rollback_of_send (suc fuel) l hash plan = elim (lookup hash l.store.pending) [
  | some ps ↦ some (ok plan)
  | none ↦ elim (lookup hash l.store.blocks) [
    | none ↦ some (ok plan)
    | some send ↦ elim (str_eq send.destination "") [
      | true ↦ some (ok plan)
      | false ↦ plan_rollback_from (plan_rollback_of_send fuel l) l send.destination hash plan
    ]
  ]
]

abbrev pub all_blocks : Map AccountChain → List Block
all_blocks [] = []
all_blocks ((account, chain) ∷ rest) = chain ++ all_blocks rest

-- Each nested call has put the hash of one more block into the plan.
abbrev pub plan_fuel : Ledger → ℕ
plan_fuel l = suc (length (all_blocks l.store.chains))

-- `planCascade`: the steps that take back what has followed from a send.
unfoldable pub plan_cascade : Ledger → String → List String → Planned CascadePlan
plan_cascade l hash planned =
    plan_rollback_of_send (plan_fuel l) l hash (record { planned = planned; steps = [] })
