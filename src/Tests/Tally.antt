-- ===== src/Tests/Tally.antt =====
-- The votes on a fork of alice's chain, all of them for one burn.
use xe.Prelude.{◌≡◌, ◌<◌, refl, some, true, [], ◌∷◌, arith, String, List}
use xe.Prelude.Int.{pos}
use xe.Map.{lookup, insert}
use xe.Ledger.{Ledger}
use xe.Ledger.Transfer.{get_block_or_staged}
use xe.Ledger.Height.{block_height, height_in, is_finalized}
use xe.Ledger.Weights.{total_delegated_weight, eligible_allowlist, allowlist, sum_eligible, sum_all}
use xe.Quorum.{
  Vote, QuorumManager, QuorumResult, weight_by_block, has_quorum, final_tally, first_quorum,
  pick_winner, counts_for, tally_total, sorted_hashes, build_result_from, candidate_set,
}
use xe.Quorum.Winner.{final_tally_lem, total_of}
use xe.Tests.Fixtures.{burn_block}
use xe.Tests.Admission.{node, weighted_ledger}

abbrev forked_ledger : Ledger
forked_ledger = record weighted_ledger {
  store = record weighted_ledger.store { staged = ("b1", burn_block) ∷ [] };
}

abbrev manager : QuorumManager
manager = record { ledger = forked_ledger; failed_promotions = [] }

abbrev votes : List Vote
votes =
    record {
      rep_pub_key = "alice";
      block_hash = "b1";
      conflict_account = "alice";
      conflict_prev = "g1";
      timestamp = pos 900;
      final = true;
      signature = [];
      weight = 50;
    }
    ∷ []

abbrev result : QuorumResult
result = record {
  conflict_account = "alice";
  conflict_prev = "g1";
  winner_hash = "b1";
  loser_hashes = [];
  winning_weight = 0;
  total_weight = 0;
}

winner_named : (final_tally node manager "alice" "g1" votes).1 ≡ some result
unfolding final_tally lookup tally_total total_delegated_weight eligible_allowlist allowlist
    sum_eligible sum_all weight_by_block counts_for get_block_or_staged insert first_quorum
    pick_winner sorted_hashes is_finalized block_height height_in has_quorum build_result_from
    candidate_set
winner_named = refl

final_tally_example :
    (0 < total_of node manager "alice" "g1")
    × (h : String) × (has_quorum
          (total_of node manager "alice" "g1")
          (weight_by_block forked_ledger "alice" "g1" [] votes)
          h
        ≡ true)
    × ((k : String)
        → has_quorum
            (total_of node manager "alice" "g1")
            (weight_by_block forked_ledger "alice" "g1" [] votes)
            k
          ≡ true
        → k ≡ h)
unfolding lookup tally_total total_delegated_weight eligible_allowlist allowlist sum_eligible
    sum_all
final_tally_example =
    final_tally_lem node manager "alice" "g1" votes result winner_named (omega arith)
