-- ===== src/Lease/Emission.antt =====
-- What a provider is paid at settlement (core/ledger.go: CapR, LeaseEmissionChecked,
-- LeaseTotalEmission), and when a lease ends (core/types.go, EffectiveExpiry).
use xe.Prelude.{ℕ, ◌+◌, ◌*◌, ◌^◌, ◌%◌, ◌≤◌, ◌<◌, ◌≡◌, refl, ap, ◌∙◌, arith, List, [], ◌∷◌}
use xe.Prelude.Int.{pos, pos_part, Int64, int_64, ◌+ℤ◌, add_64-eq-+ℤ}
use xe.Word.{modulus, add_u64, ceil_div}
use xe.Word.Laws.{ceil_div_bounds, safe_mul_lem, mul_mono}
use xe.Types.{Lease, LeaseSegment, durations_from, effective_duration_secs}
use xe.Lease.{cap_r, effective_expiry, at_least_one, lease_max_duration, second}

-- The capped rate is never above the epoch's rate; and where a cap and a price are set and the
-- cap is below 2^64 thousandths, what the capped rate pays for a unit of cost (its value at that
-- price) is below the cap plus one unit of price: the cap is exceeded by rounding only.
pub cap_r_bounds :
    (r payout_cap twap : ℕ)
    → 0 < payout_cap
    → 0 < twap
    → payout_cap * 1000 < modulus
    → (cap_r r payout_cap twap ≤ r) × (cap_r r payout_cap twap * twap < payout_cap * 1000 + twap)
unfolding cap_r
cap_r_bounds r payout_cap twap hc ht h = ground (
  arith,
  safe_mul_lem payout_cap 1000,
  ceil_div_bounds (payout_cap * 1000) twap,
  mul_mono r (ceil_div (payout_cap * 1000) twap) twap,
)

-- The emission of one paid segment, with no overflow.
abbrev pub segment_emission : ℕ → ℕ → ℕ → ℕ → ℕ
segment_emission cost r payout_cap twap =
    at_least_one (ceil_div (cost * cap_r r payout_cap twap) 1000)

abbrev pub renewals_total : List LeaseSegment → ℕ
renewals_total [] = 0
renewals_total (s ∷ rest) =
    segment_emission s.cost s.locked_r s.locked_payout_cap s.locked_twap + renewals_total rest

-- The seconds that a lease was paid for, the base and every renewal, as a sum with no bound.
abbrev pub renewed_secs : List LeaseSegment → ℕ
renewed_secs [] = 0
renewed_secs (s ∷ rest) = s.duration + renewed_secs rest

abbrev pub paid_secs : Lease → ℕ
paid_secs l = l.duration + renewed_secs l.renewals

durations_from_lem :
    (total : ℕ) (segs : List LeaseSegment)
    → total + renewed_secs segs < modulus
    → durations_from total segs ≡ total + renewed_secs segs
unfolding durations_from
durations_from_lem total [] h = omega arith
durations_from_lem total (s ∷ rest) h =
    let step : add_u64 total s.duration ≡ total + s.duration = omega arith in
    ap (λ n. durations_from n rest) step
    ∙ (durations_from_lem (total + s.duration) rest (omega arith) ∙ omega arith)

-- If the base duration and the durations of all renewals, summed with no bound, are at most the maximum of
-- a lease, the start time is in the int64 range, and a lease of the maximum would end in range, then
-- EffectiveDurationSecs is that sum, and EffectiveExpiry is the start plus that many seconds in
-- nanoseconds: no sum and no product wraps.
pub effective_expiry_lem :
    (l : Lease)
    → Int64 l.start_time
    → paid_secs l ≤ lease_max_duration
    → pos_part l.start_time + lease_max_duration * second < 2 ^ 63
    → (effective_duration_secs l ≡ paid_secs l)
      × (effective_expiry l ≡ l.start_time +ℤ pos (paid_secs l * second))
unfolding effective_expiry effective_duration_secs
effective_expiry_lem l hs hd h = (
  whole,
  rw
      (
        whole,
        nanos,
        add_64-eq-+ℤ l.start_time (pos (paid_secs l * second)) hs (omega arith) in_range,
      )
      refl,
)
  where
    whole : effective_duration_secs l ≡ paid_secs l
    whole = durations_from_lem l.duration l.renewals (omega arith)

    nanos : int_64 (paid_secs l * second % modulus) ≡ pos (paid_secs l * second)
    nanos = ground arith

    in_range : Int64 (l.start_time +ℤ pos (paid_secs l * second))
    in_range = unfold ◌+ℤ◌ in ground arith
