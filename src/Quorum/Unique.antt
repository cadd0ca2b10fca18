-- ===== src/Quorum/Unique.antt =====
-- At most one branch of a fork has a quorum (core/quorum.go, finalTally).
use xe.Prelude.{
  ℕ, ◌+◌, ◌<◌, ◌≤◌, String, Bool, true, false, List, [], ◌∷◌, ◌≡◌, refl, arith, str_eq, eq_iff,
  if◌then◌else◌, Bool-cases, inl, inr, ◌&&◌, when_some, ap,
}
use xe.Map.{Map, lookup, insert}
use xe.Ledger.Transfer.{get_block_or_staged}
use xe.Ledger.{Ledger, number_at}
use xe.Ledger.Supply.{number_at-insert}
use xe.Quorum.{Vote, counts_for, weight_by_block, has_quorum}

-- The weight of all final votes.
abbrev pub final_weight : List Vote → ℕ
final_weight [] = 0
final_weight (v ∷ rest) = (if v.final then v.weight else 0) + final_weight rest

at_most_one :
    (p q : Bool) (nh nk nx w : ℕ)
    → (p ≡ true → nx ≡ nh)
    → (q ≡ true → nx ≡ nk)
    → (p ≡ true → q ≡ false)
    → (if p then nx + w else nh) + (if q then nx + w else nk) ≤ nh + nk + w
at_most_one true true nh nk nx w e f g = (let absurd : true ≡ false = g refl in cc)
at_most_one true false nh nk nx w e f g = omega (arith, e refl)
at_most_one false true nh nk nx w e f g = omega (arith, f refl)
at_most_one false false nh nk nx w e f g = omega arith

-- A vote adds its weight to one block.
counted :
    (h k x : String) (w : ℕ) (weights : Map ℕ)
    → str_eq h k ≡ false
    → number_at h (insert x (number_at x weights + w) weights)
        + number_at k (insert x (number_at x weights + w) weights)
      ≤ number_at h weights + number_at k weights + w
counted h k x w weights ne =
    rw
      (
        number_at-insert h x (number_at x weights + w) weights,
        number_at-insert k x (number_at x weights + w) weights,
      )
      (at_most_one (str_eq x h) (str_eq x k) (number_at h weights) (number_at k weights)
        (number_at x weights) w (λ e. ap (λ y. number_at y weights) ((eq_iff x h).0 e))
        (λ e. ap (λ y. number_at y weights) ((eq_iff x k).0 e)) (λ e. rw ((eq_iff x h).0 e) ne))

one_vote :
    (h k x : String) (w : ℕ) (weights : Map ℕ) (final known : Bool)
    → str_eq h k ≡ false
    → number_at h (if final && known then insert x (number_at x weights + w) weights else weights)
        + number_at k
            (if final && known then insert x (number_at x weights + w) weights else weights)
      ≤ number_at h weights + number_at k weights + (if final then w else 0)
one_vote h k x w weights false known ne = omega arith
one_vote h k x w weights true false ne = omega arith
one_vote h k x w weights true true ne = counted h k x w weights ne

module _ (l : Ledger) (account previous : String) where
  -- Two blocks share no vote.
  two_blocks :
      (h k : String) (votes : List Vote) (weights : Map ℕ)
      → str_eq h k ≡ false
      → number_at h (weight_by_block l account previous weights votes)
          + number_at k (weight_by_block l account previous weights votes)
        ≤ number_at h weights + number_at k weights + final_weight votes
  unfolding weight_by_block counts_for
  two_blocks h k [] weights ne = omega arith
  two_blocks h k (v ∷ rest) weights ne = omega (
    arith,
    one_vote h k v.block_hash v.weight weights v.final
        (when_some (get_block_or_staged l v.block_hash) false
          (λ b. str_eq b.account account && str_eq b.previous previous))
        ne,
    two_blocks h k rest
        (if counts_for l account previous v
          then insert v.block_hash (number_at v.block_hash weights + v.weight) weights
          else weights)
        ne,
  )

  -- In a tally of final votes that weigh no more than the total, which is not 0, at most one block
  -- reaches the quorum.
  pub quorum_unique :
      (total : ℕ) (votes : List Vote) (h k : String)
      → 0 < total
      → final_weight votes ≤ total
      → has_quorum total (weight_by_block l account previous [] votes) h ≡ true
      → has_quorum total (weight_by_block l account previous [] votes) k ≡ true
      → h ≡ k
  unfolding has_quorum lookup
  quorum_unique total votes h k positive enough qh qk = elim (Bool-cases (str_eq h k)) [
    | inl e ↦ (eq_iff h k).0 e
    | inr e ↦ ground (arith, two_blocks h k votes [] e)
  ]
