-- ===== src/Ledger/Weights.antt =====
-- Which representatives count, and their weights (core/repeligibility.go; core/ledger.go,
-- snapshotWeights). The published configuration is what the callback gives at the call. A set of
-- addresses is a list that holds each once.
pub mod Open
use xe.Prelude.{
  ℕ, ◌+◌, String, Bool, true, false, ◌&&◌, ◌||◌, Option, none, some, List, [], ◌∷◌, ltb, str_eq,
  if◌then◌else◌,
}
use xe.Map.{Map}
use xe.Word.{modulus, max_uint64, add_u64}
use xe.Attestation.{contains}
use xe.Ledger.{Ledger, number_at}

pub data RepMode : Type 0 where
  open_mode allowlist_mode : RepMode
  -- any other text
  other_mode : String → RepMode

pub record RepresentativeConfig : Type 0 where
  pub mode : RepMode
  pub addresses : List String

abbrev is_allowlist : RepMode → Bool
is_allowlist RepMode.allowlist_mode = true
is_allowlist _ = false

-- The addresses that are set, each once.
unfoldable pub address_set : List String → List String
address_set [] = []
address_set (a ∷ rest) =
    let set = address_set rest in if str_eq a "" || contains a set then set else a ∷ set

abbrev or_unrestricted : List String → Option (List String)
or_unrestricted [] = none
or_unrestricted (a ∷ rest) = some (a ∷ rest)

-- `allowlist`: `none` restricts nothing.
unfoldable pub allowlist : Option RepresentativeConfig → Option (List String)
allowlist none = none
allowlist (some c) = if is_allowlist c.mode then or_unrestricted (address_set c.addresses) else none

unfoldable pub any_weight : List String → Map ℕ → Bool
any_weight [] ws = false
any_weight (rep ∷ rest) ws = ltb 0 (number_at rep ws) || any_weight rest ws

-- `eligibleAllowlistLocked`: an allowlist that matches no weight is ignored.
unfoldable pub eligible_allowlist : Option RepresentativeConfig → Map ℕ → Option (List String)
eligible_allowlist cfg ws = elim (allowlist cfg) [
  | none ↦ none
  | some set ↦ if any_weight set ws then some set else none
]

unfoldable pub rep_eligible : Option (List String) → String → Bool
rep_eligible none rep = true
rep_eligible (some set) rep = contains rep set

-- `sumEligibleLocked`, of big integers.
unfoldable pub sum_all : Map ℕ → ℕ
sum_all [] = 0
sum_all ((rep, w) ∷ rest) = w + sum_all rest

unfoldable pub sum_set : List String → Map ℕ → ℕ
sum_set [] ws = 0
sum_set (rep ∷ rest) ws = number_at rep ws + sum_set rest ws

unfoldable pub sum_eligible : Option (List String) → Map ℕ → ℕ
sum_eligible none ws = sum_all ws
sum_eligible (some set) ws = sum_set set ws

unfoldable pub total_delegated_weight : Option RepresentativeConfig → Ledger → ℕ
total_delegated_weight cfg l = sum_eligible (eligible_allowlist cfg l.weights) l.weights

-- A weight as a uint64; one that does not fit is the largest.
abbrev clamp_u64 : ℕ → ℕ
clamp_u64 w = if ltb w modulus then w else max_uint64

unfoldable pub snapshot_of : Option (List String) → Map ℕ → Map ℕ
snapshot_of set [] = []
snapshot_of set ((rep, w) ∷ rest) =
    let snap = snapshot_of set rest in
    if ltb 0 w && rep_eligible set rep then (rep, clamp_u64 w) ∷ snap else snap

unfoldable pub snapshot_weights : Option RepresentativeConfig → Ledger → Map ℕ
snapshot_weights cfg l = snapshot_of (eligible_allowlist cfg l.weights) l.weights

-- The uint64 sum of a snapshot, which wraps.
unfoldable pub snapshot_total : ℕ → Map ℕ → ℕ
snapshot_total total [] = total
snapshot_total total ((rep, w) ∷ rest) = snapshot_total (add_u64 total w) rest

-- `GetAllVoteWeights`: the loop of a snapshot that restricts nothing.
unfoldable pub all_vote_weights : Ledger → Map ℕ
all_vote_weights l = snapshot_of none l.weights

abbrev is_restricted : Option (List String) → Bool
is_restricted none = false
is_restricted (some set) = true

unfoldable pub rep_eligibility_restricted : Option RepresentativeConfig → Ledger → Bool
rep_eligibility_restricted cfg l = is_restricted (eligible_allowlist cfg l.weights)

unfoldable pub sum_outside : List String → Map ℕ → ℕ
sum_outside set [] = 0
sum_outside set ((rep, w) ∷ rest) =
    let total = sum_outside set rest in if contains rep set then total else w + total

abbrev ineligible_of : Option (List String) → Map ℕ → ℕ
ineligible_of none ws = 0
ineligible_of (some set) ws = sum_outside set ws

unfoldable pub ineligible_weight : Option RepresentativeConfig → Ledger → ℕ
ineligible_weight cfg l = ineligible_of (eligible_allowlist cfg l.weights) l.weights
