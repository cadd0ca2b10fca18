-- ===== src/Quorum/Winner.antt =====
-- What stands behind a winner (core/quorum.go, finalTally).
use xe.Prelude.{
  ℕ, ◌<◌, ◌≤◌, String, true, false, List, [], ◌∷◌, Option, none, some, ◌≡◌, arith, str_eq,
  if◌then◌else◌, Bool-cases, inl, inr, ◌==◌,
}
use xe.Map.{Map, lookup}
use xe.Store.{conflict_key}
use xe.Types.{Conflict}
use xe.Ledger.Admission.{Node}
use xe.Quorum.{
  Vote, QuorumManager, QuorumResult, weight_by_block, has_quorum, first_quorum, final_tally,
  tally_total, sorted_hashes, candidate_set, build_result_from,
}
use xe.Quorum.Unique.{final_weight, quorum_unique}

first_quorum_lem :
    (node : Node) (account previous : String) (candidates : List String) (total : ℕ)
    (weights : Map ℕ) (qm : QuorumManager) (hashes : List String)
    → str_eq (first_quorum node account previous candidates total weights qm hashes).1 "" ≡ false
    → (h : String) × (has_quorum total weights h ≡ true)
unfolding first_quorum
first_quorum_lem node account previous candidates total weights qm [] named = cc
first_quorum_lem node account previous candidates total weights qm (h ∷ rest) named =
    elim (Bool-cases (has_quorum total weights h)) [
      | inl e ↦ (h, e)
      | inr e ↦
          first_quorum_lem node account previous candidates total weights qm rest (rw e at named)
    ]

-- The fork's record, the total of its tally and the final weights.
abbrev recorded : QuorumManager → String → String → Option Conflict
recorded qm account previous = lookup (conflict_key account previous) qm.ledger.store.conflicts

abbrev pub total_of : Node → QuorumManager → String → String → ℕ
total_of node qm account previous = tally_total node qm.ledger (recorded qm account previous)

named_winner :
    (w : String) (account previous : String) (candidates : List String) (r : QuorumResult)
    → (if str_eq w "" then none else some (build_result_from account previous w candidates))
      ≡ some r
    → str_eq w "" ≡ false
named_winner w account previous candidates r e = elim (Bool-cases (str_eq w "")) [
  | inl empty ↦ (let absurd : none ≡ some r = rw empty at e in cc)
  | inr set ↦ set
]

-- If a tally names a winner and its final votes weigh no more than its total, then the total is not
-- 0, and exactly one block holds the quorum: at least 67 hundredths of the total in final votes.
pub final_tally_lem :
    (node : Node) (qm : QuorumManager) (account previous : String) (votes : List Vote)
    (r : QuorumResult)
    → (final_tally node qm account previous votes).1 ≡ some r
    → final_weight votes ≤ total_of node qm account previous
    → (0 < total_of node qm account previous)
      × (h : String) × (has_quorum
            (total_of node qm account previous)
            (weight_by_block qm.ledger account previous [] votes)
            h
          ≡ true)
      × ((k : String)
          → has_quorum
              (total_of node qm account previous)
              (weight_by_block qm.ledger account previous [] votes)
              k
            ≡ true
          → k ≡ h)
unfolding final_tally
final_tally_lem node qm account previous votes r named enough =
    elim (Bool-cases (total_of node qm account previous == 0)) [
      | inl e ↦ (let absurd : none ≡ some r = rw e at named in cc)
      | inr e ↦
          let weights = weight_by_block qm.ledger account previous [] votes in
          let positive : 0 < total_of node qm account previous = ground (arith, e) in
          let (h, q) =
            first_quorum_lem node account previous
              (candidate_set (recorded qm account previous) votes)
              (total_of node qm account previous) weights qm (sorted_hashes weights)
              (named_winner _ account previous _ r (rw e at named)) in
          (
            positive,
            h,
            q,
            λ k qk.
                quorum_unique qm.ledger account previous (total_of node qm account previous) votes k
                  h positive enough qk q,
          )
    ]
