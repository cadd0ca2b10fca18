-- ===== src/Ledger/Weights/Open.antt =====
-- The eligible weight is never zero while weight is delegated (core/repeligibility.go,
-- eligibleAllowlistLocked).
use xe.Prelude.{
  ℕ, ◌<◌, String, Bool, true, false, List, [], ◌∷◌, Option, none, some, ◌≡◌, refl, arith,
  if◌then◌else◌,
}
use xe.Map.{Map}
use xe.Ledger.{Ledger}
use xe.Ledger.Weights.{
  RepresentativeConfig, any_weight, eligible_allowlist, allowlist, sum_all, sum_set, sum_eligible,
  total_delegated_weight,
}

any_weight_positive :
    (set : List String) (ws : Map ℕ) → any_weight set ws ≡ true → 0 < sum_set set ws
unfolding any_weight sum_set
any_weight_positive [] ws h = cc
any_weight_positive (rep ∷ rest) ws h = ground (arith, any_weight_positive rest ws)

restricted_positive :
    (set : List String) (ws : Map ℕ) (c : Bool)
    → any_weight set ws ≡ c
    → 0 < sum_all ws
    → 0 < sum_eligible (if c then some set else none) ws
unfolding sum_eligible
restricted_positive set ws true e h = any_weight_positive set ws e
restricted_positive set ws false e h = h

policy_positive :
    (policy : Option (List String)) (ws : Map ℕ)
    → 0 < sum_all ws
    → 0
      < sum_eligible
          (elim policy as (λ p. Option (List String)) [
            | none ↦ none
            | some set ↦ if any_weight set ws then some set else none
          ])
          ws
unfolding sum_eligible
policy_positive none ws h = h
policy_positive (some set) ws h = restricted_positive set ws (any_weight set ws) refl h

-- If any representative has weight, then some weight is eligible, whatever the published policy is:
-- an allowlist that matches no weight is ignored.
pub eligible_weight_positive :
    (cfg : Option RepresentativeConfig) (l : Ledger)
    → 0 < sum_all l.weights
    → 0 < total_delegated_weight cfg l
unfolding total_delegated_weight eligible_allowlist
eligible_weight_positive cfg l h = policy_positive (allowlist cfg) l.weights h
