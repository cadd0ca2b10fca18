-- ===== src/Tests/Arithmetic.antt =====
-- The theorems on prices, emission, expiry, reputation and words, at concrete numbers.
use xe.Prelude.{
  ℕ, ◌+◌, ◌*◌, ◌≤◌, ◌<◌, ◌≡◌, refl, true, false, some, none, [], ◌∷◌, ok, arith, ltb, if◌then◌else◌,
}
use xe.Prelude.Int.{pos, ◌+ℤ◌, ◌-ℤ◌}
use xe.Word.{modulus, max_uint64, mul64, safe_mul, sum_u64_from, signed_delta}
use xe.Word.Laws.{safe_mul_lem, sum_u64_from_lem, signed_delta_lem, sum}
use xe.Word.Product.{mul64_exact}
use xe.Types.{Lease, LeaseSegment, LeaseState, effective_duration_secs}
use xe.Lease.{
  default_timing, lease_cost, validate_lease_dimensions, cap_r, effective_expiry, second,
}
use xe.Lease.Cost.{lease_cost_total, per_hour, minutes}
use xe.Lease.Emission.{cap_r_bounds, effective_expiry_lem}
use xe.Reputation.{
  ReputationEvent, EventKind, new_reputation_aggregate, apply_reputation_delta,
  revert_reputation_delta,
}
use xe.Reputation.Revert.{HasRoom, with_times, revert-apply}

abbrev renewal : LeaseSegment
renewal = record {
  renew_hash = "n1";
  duration = 3600;
  cost = 40_000;
  start_time = pos 2_000;
  certificate_hash = "";
  locked_r = 1500;
  locked_payout_cap = 0;
  locked_twap = 0;
}

abbrev lease : Lease
lease = record {
  lease_hash = "l1";
  state = LeaseState.accepted;
  consumer = "bob";
  provider = "alice";
  vcpus = 2;
  memory_mb = 1024;
  disk_gb = 10;
  duration = 3600;
  access_pub_key = "";
  cost = 60_000;
  stake = 0;
  start_time = pos 1_000;
  certificate_hash = "";
  settled = false;
  locked_r = 2_000;
  locked_payout_cap = 30;
  locked_twap = 20;
  renewals = renewal ∷ [];
}

lease_cost_total_example :
    (c : ℕ) × (lease_cost default_timing 2 1024 10 3600 1000 ≡ ok c)
    × (1 ≤ c)
    × (per_hour 2 1024 10 * minutes 3600 * 1000 ≤ c * 60_000)
    × (c * 60_000 ≤ per_hour 2 1024 10 * minutes 3600 * 1000 + 60 * 1000 + 60_000)
unfolding validate_lease_dimensions
lease_cost_total_example =
    lease_cost_total default_timing 2 1024 10 3600 1000 refl (omega arith) (omega arith)

cap_r_bounds_example : (cap_r 2_000 30 20 ≤ 2_000) × (cap_r 2_000 30 20 * 20 < 30 * 1000 + 20)
cap_r_bounds_example = cap_r_bounds 2_000 30 20 (omega arith) (omega arith) (omega arith)

effective_expiry_example :
    (effective_duration_secs lease ≡ 7200)
    × (effective_expiry lease ≡ pos 1_000 +ℤ pos (7200 * second))
effective_expiry_example = effective_expiry_lem lease (omega arith) (omega arith) (omega arith)

abbrev settlement : ReputationEvent
settlement = record {
  kind = EventKind.lease_settled;
  provider = "alice";
  consumer = "bob";
  timestamp = pos 5_000;
  duration_secs = 3600;
}

revert-apply_example :
    revert_reputation_delta
      (apply_reputation_delta new_reputation_aggregate "alice" settlement)
      "alice"
      settlement
    ≡ with_times
        (apply_reputation_delta new_reputation_aggregate "alice" settlement)
        new_reputation_aggregate
revert-apply_example = revert-apply new_reputation_aggregate "alice" settlement room
  where
    room : HasRoom 3600 new_reputation_aggregate
    room = record {
      accepted_p = omega arith;
      settled_p = omega arith;
      hours_p = omega arith;
      unfulfilled_p = omega arith;
      accepted_c = omega arith;
      settled_c = omega arith;
      cancelled_c = omega arith;
      hours_c = omega arith;
      unfulfilled_c = omega arith;
    }

mul64_exact_example :
    (mul64 max_uint64 max_uint64).0 * modulus + (mul64 max_uint64 max_uint64).1
    ≡ max_uint64 * max_uint64
mul64_exact_example = mul64_exact max_uint64 max_uint64 (omega arith) (omega arith)

safe_mul_example :
    safe_mul max_uint64 2 ≡ (if ltb (max_uint64 * 2) modulus then some (max_uint64 * 2) else none)
safe_mul_example = safe_mul_lem max_uint64 2

sum_u64_from_example : sum_u64_from 5 (max_uint64 ∷ 1 ∷ []) ≡ (
    if ltb (5 + sum (max_uint64 ∷ 1 ∷ [])) modulus
    then (5 + sum (max_uint64 ∷ 1 ∷ []), false)
    else (max_uint64, true))
sum_u64_from_example =
    sum_u64_from_lem 5 (max_uint64 ∷ 1 ∷ []) (omega arith) (omega arith, omega arith)

signed_delta_example : signed_delta 3 10 ≡ pos 3 -ℤ pos 10
signed_delta_example = signed_delta_lem 3 10 (omega arith) (omega arith)
