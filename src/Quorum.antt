-- ===== src/Quorum.antt =====
-- The final tally of a fork's votes (core/quorum.go: finalTally, promotable, buildResultFrom).
-- The locks make a tally one step. A Go map that is walked is a list, in the order of the walk;
-- log lines are left out.
pub mod Unique
pub mod Voting
pub mod Winner
use Prim.Native.String.{◌++◌, compare}
use text.Mathlib.Text.{is_lt}
use xe.Prelude.{
  ℕ, ◌+◌, ◌*◌, String, Bool, true, false, not, ◌&&◌, ◌||◌, Option, none, some, List, [], ◌∷◌, map,
  Result, ok, err, when_some, ltb, leb, ◌==◌, str_eq, if◌then◌else◌,
}
use xe.Prelude.Int.{ℤ, pos, ltb_ℤ, ◌-ℤ◌}
use xe.Map.{Map, lookup, insert, delete}
use xe.Types.{Block, Conflict}
use xe.Attestation.{contains}
use xe.Store.{conflict_key}
use xe.Ledger.{Ledger, number_at, asset_or_xe}
use xe.Ledger.Transfer.{get_block_or_staged}
use xe.Ledger.Height.{block_height, is_finalized, asset_balance_at_block}
use xe.Ledger.Weights.{total_delegated_weight}
use xe.Ledger.Admission.{Node, validate_staged_block}

pub record Vote : Type 0 where
  pub rep_pub_key : String
  pub block_hash : String
  pub conflict_account : String
  pub conflict_prev : String
  pub timestamp : ℤ
  pub final : Bool
  pub signature : List ℕ
  pub weight : ℕ

pub record QuorumResult : Type 0 where
  pub conflict_account : String
  pub conflict_prev : String
  pub winner_hash : String
  pub loser_hashes : List String
  pub winning_weight : ℕ
  pub total_weight : ℕ

-- What a tally reads and changes: the ledger, and when a promotion last failed.
pub record QuorumManager : Type 0 where
  pub ledger : Ledger
  pub failed_promotions : Map ℤ

abbrev pub quorum_numerator : ℕ
quorum_numerator = 67

abbrev pub quorum_denominator : ℕ
quorum_denominator = 100

-- In nanoseconds.
abbrev failed_promotion_ttl : ℤ
failed_promotion_ttl = pos 30_000_000_000

abbrev pub failed_promotion_key : String → String → String → String
failed_promotion_key account previous hash = account ++ "|" ++ previous ++ "|" ++ hash

-- The vote is final, for a known block of the account after `previous`.
unfoldable pub counts_for : Ledger → String → String → Vote → Bool
counts_for l account previous v =
    v.final
    && when_some (get_block_or_staged l v.block_hash) false
        (λ b. str_eq b.account account && str_eq b.previous previous)

-- The loop over the votes: the final weight of each block.
unfoldable pub weight_by_block : Ledger → String → String → Map ℕ → List Vote → Map ℕ
weight_by_block l account previous weights [] = weights
weight_by_block l account previous weights (v ∷ rest) =
    weight_by_block l account previous
      (if counts_for l account previous v
        then insert v.block_hash (number_at v.block_hash weights + v.weight) weights
        else weights)
      rest

abbrev add_candidate : String → List String → List String
add_candidate h set = if contains h set then set else h ∷ set

abbrev add_candidates : List String → List String → List String
add_candidates [] set = set
add_candidates (h ∷ rest) set = add_candidates rest (add_candidate h set)

abbrev voted_hash : Vote → String
voted_hash v = v.block_hash

unfoldable pub candidate_set : Option Conflict → List Vote → List String
candidate_set conflict votes =
    add_candidates (when_some conflict [] (λ c. c.block_hashes))
      (add_candidates (map voted_hash votes) [])

-- The weight that the fork was recorded with, or else what is delegated now.
unfoldable pub tally_total : Node → Ledger → Option Conflict → ℕ
tally_total node l conflict =
    let recorded = when_some conflict 0 (λ c. c.total_weight) in
    if ltb 0 recorded then recorded else total_delegated_weight node.representatives l

abbrev is_ok : Result (Unit {0}) → Bool
is_ok (ok u) = true
is_ok (err e) = false

unfoldable pub staged_promotable :
    Node → QuorumManager → String → String → Option Block → QuorumManager × Bool
staged_promotable node qm account previous none = (qm, false)
staged_promotable node qm account previous (some staged) =
    let parent =
      if str_eq previous "0"
      then 0
      else asset_balance_at_block qm.ledger account (asset_or_xe staged.asset) previous in
    let (l, r) = validate_staged_block node qm.ledger staged parent in
    (record qm { ledger = l }, is_ok r)

-- A failed promotion that is not old yet.
abbrev recently_failed : ℤ → Option ℤ → Bool
recently_failed now none = false
recently_failed now (some recorded_at) = ltb_ℤ (now -ℤ recorded_at) failed_promotion_ttl

unfoldable pub promotable : Node → QuorumManager → String → String → String → QuorumManager × Bool
promotable node qm account previous hash = elim (block_height qm.ledger account hash) [
  | some h ↦ (
    qm,
    if str_eq previous "0"
        then h == 1
        else when_some (block_height qm.ledger account previous) false (λ ph. h == ph + 1),
  )
  | none ↦
      let key = failed_promotion_key account previous hash in
      if recently_failed node.config.now (lookup key qm.failed_promotions)
      then (qm, false)
      else staged_promotable node
          (record qm { failed_promotions = delete key qm.failed_promotions }) account previous
          (lookup hash qm.ledger.store.staged)
]

-- The candidate of the lowest hash that is promotable, "" where there is none.
unfoldable pub lowest_promotable :
    Node → String → String → QuorumManager → String → List String → QuorumManager × String
lowest_promotable node account previous qm best [] = (qm, best)
lowest_promotable node account previous qm best (h ∷ rest) =
    let (qm', fits) = promotable node qm account previous h in
    lowest_promotable node account previous qm'
      (if fits && (str_eq best "" || is_lt (compare h best)) then h else best) rest

unfoldable pub pick_winner :
    Node → String → String → List String → QuorumManager → String → QuorumManager × String
pick_winner node account previous candidates qm winner =
    if str_eq winner "" || not (str_eq previous "0" || is_finalized qm.ledger account previous)
    then (qm, winner)
    else let (qm', fits) = promotable node qm account previous winner in
      if fits then (qm', winner) else lowest_promotable node account previous qm' "" candidates

-- `weightByBlock[h] * quorumDenominator >= total * quorumNumerator`, of big integers.
unfoldable pub has_quorum : ℕ → Map ℕ → String → Bool
has_quorum total weights h =
    leb (total * quorum_numerator) (number_at h weights * quorum_denominator)

-- The loop over the sorted hashes; "" where it names no winner.
unfoldable pub first_quorum :
    Node
    → String
    → String
    → List String
    → ℕ
    → Map ℕ
    → QuorumManager
    → List String
    → QuorumManager × String
first_quorum node account previous candidates total weights qm [] = (qm, "")
first_quorum node account previous candidates total weights qm (h ∷ rest) =
    let (qm', w) =
      if has_quorum total weights h
      then pick_winner node account previous candidates qm h
      else (qm, "") in
    let later = first_quorum node account previous candidates total weights qm' rest in
    if str_eq w "" then later else (qm', w)

-- `sort.Strings`
abbrev insert_hash : String → List String → List String
insert_hash h [] = h ∷ []
insert_hash h (k ∷ rest) = if is_lt (compare k h) then k ∷ insert_hash h rest else h ∷ k ∷ rest

unfoldable pub sorted_hashes : Map ℕ → List String
sorted_hashes [] = []
sorted_hashes ((h, w) ∷ rest) = insert_hash h (sorted_hashes rest)

abbrev others : String → List String → List String
others winner [] = []
others winner (h ∷ rest) = if str_eq h winner then others winner rest else h ∷ others winner rest

unfoldable pub build_result_from : String → String → String → List String → QuorumResult
build_result_from account previous winner candidates = record {
  conflict_account = account;
  conflict_prev = previous;
  winner_hash = winner;
  loser_hashes = others winner candidates;
  winning_weight = 0;
  total_weight = 0;
}

-- `votes` are what the vote store holds for the fork.
unfoldable pub final_tally :
    Node → QuorumManager → String → String → List Vote → QuorumManager × Option QuorumResult
final_tally node qm account previous votes =
    let conflict = lookup (conflict_key account previous) qm.ledger.store.conflicts in
    let total = tally_total node qm.ledger conflict in
    let weights = weight_by_block qm.ledger account previous [] votes in
    let candidates = candidate_set conflict votes in
    if total == 0
    then (qm, none)
    else let (qm', w) =
        first_quorum node account previous candidates total weights qm (sorted_hashes weights) in
      (qm', if str_eq w "" then none else some (build_result_from account previous w candidates))
