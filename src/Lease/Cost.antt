-- ===== src/Lease/Cost.antt =====
-- The price of a lease (core/ledger.go, LeaseCost): it never overflows for the dimensions that
-- `ValidateLeaseDimensions` lets through, and it is the price rounded up.
use xe.Prelude.{ℕ, ◌+◌, ◌*◌, ◌≤◌, ◌<◌, ◌≡◌, arith, ok}
use xe.Word.{modulus, ceil_div}
use xe.Word.Laws.{ceil_div_bounds, safe_mul-some, safe_add-some, mul_mono}
use xe.Lease.{LeaseTiming, lease_cost, validate_lease_dimensions, at_least_one}

-- The price of an hour, in micro-units, and the minutes that are charged.
abbrev pub per_hour : ℕ → ℕ → ℕ → ℕ
per_hour vcpus memory_mb disk_gb =
    vcpus * 20_000 + ceil_div memory_mb 1024 * 10_000 + disk_gb * 1_000

abbrev pub minutes : ℕ → ℕ
minutes duration = ceil_div duration 60

-- The rounded price, as it is computed.
abbrev rounded : ℕ → ℕ → ℕ
rounded p m = at_least_one (ceil_div (ceil_div p 60 * m) 1000)

mul_le_mul : (a A b B : ℕ) → a ≤ A → b ≤ B → a * b ≤ A * B
mul_le_mul a A b B h h' = grind arith

small_work :
    (p n m : ℕ)
    → p ≤ 1_785_856_000
    → n ≤ 525_600
    → m ≤ 1_000_000
    → (p * n < modulus) × (ceil_div (p * n) 60 * m < modulus)
small_work p n m hp hn hm = (
  omega (arith, work),
  omega (arith, mul_le_mul (ceil_div (p * n) 60) 15_644_098_560_001 m 1_000_000 cost hm),
)
  where
    work : p * n ≤ 1_785_856_000 * 525_600
    work = mul_le_mul p 1_785_856_000 n 525_600 hp hn

    cost : ceil_div (p * n) 60 ≤ 15_644_098_560_001
    cost = omega (arith, work, ceil_div_bounds (p * n) 60)

rounded_bounds :
    (p m : ℕ) → (p * m ≤ rounded p m * 60_000) × (rounded p m * 60_000 ≤ p * m + 60 * m + 60_000)
rounded_bounds p m = ground (
  arith,
  mul_mono p (ceil_div p 60 * 60) m,
  mul_mono (ceil_div p 60 * 60) (p + 60) m,
  ceil_div_bounds p 60,
  ceil_div_bounds (ceil_div p 60 * m) 1000,
)

module _ (timing : LeaseTiming) (vcpus memory_mb disk_gb duration : ℕ) where
  IsSmall : Type 0
  IsSmall =
      (0 < per_hour vcpus memory_mb disk_gb)
      × (vcpus ≤ 4096)
      × (ceil_div memory_mb 1024 ≤ 65536)
      × (disk_gb ≤ 1048576)
      × (timing.lease_min_duration ≤ duration)
      × (duration ≤ 31536000)
      × (minutes duration ≤ 525600)

  valid-IsSmall :
      validate_lease_dimensions timing vcpus memory_mb disk_gb duration ≡ ok tt → IsSmall
  unfolding IsSmall validate_lease_dimensions
  valid-IsSmall h = ground (arith, ceil_div_bounds memory_mb 1024, ceil_div_bounds duration 60)

  lease_cost-rounded :
      (m : ℕ)
      → IsSmall
      → 0 < m
      → m ≤ 1_000_000
      → lease_cost timing vcpus memory_mb disk_gb duration m
        ≡ ok (rounded (per_hour vcpus memory_mb disk_gb * minutes duration) m)
  unfolding IsSmall lease_cost
  lease_cost-rounded m s hm hm' = ground (
    arith,
    safe_mul-some vcpus 20_000,
    safe_mul-some (ceil_div memory_mb 1024) 10_000,
    safe_mul-some disk_gb 1_000,
    safe_add-some (vcpus * 20_000) (ceil_div memory_mb 1024 * 10_000),
    safe_add-some (vcpus * 20_000 + ceil_div memory_mb 1024 * 10_000) (disk_gb * 1_000),
    safe_mul-some (per_hour vcpus memory_mb disk_gb) (minutes duration) fits.0,
    safe_mul-some (ceil_div (per_hour vcpus memory_mb disk_gb * minutes duration) 60) m fits.1,
  )
    where
      fits :
          (per_hour vcpus memory_mb disk_gb * minutes duration < modulus)
          × (ceil_div (per_hour vcpus memory_mb disk_gb * minutes duration) 60 * m < modulus)
      fits =
          small_work (per_hour vcpus memory_mb disk_gb) (minutes duration) m (omega arith)
            (omega arith) hm'

  -- For every request that `ValidateLeaseDimensions` lets through, at a price multiplier of at
  -- most 1000 (1,000,000 thousandths) and not 0, `LeaseCost` gives a cost and no overflow error. The
  -- cost is at least 1 and at least the price of the charged minutes, and exceeds that price by
  -- at most the rounding: one micro-unit, and one thousandth of one per thousandth of the multiplier.
  pub lease_cost_total :
      (m : ℕ)
      → validate_lease_dimensions timing vcpus memory_mb disk_gb duration ≡ ok tt
      → 0 < m
      → m ≤ 1_000_000
      → (c : ℕ) × (lease_cost timing vcpus memory_mb disk_gb duration m ≡ ok c)
        × (1 ≤ c)
        × (per_hour vcpus memory_mb disk_gb * minutes duration * m ≤ c * 60_000)
        × (c * 60_000 ≤ per_hour vcpus memory_mb disk_gb * minutes duration * m + 60 * m + 60_000)
  lease_cost_total m h hm hm' = (
    rounded p m,
    lease_cost-rounded m (valid-IsSmall h) hm hm',
    ground arith,
    (rounded_bounds p m).0,
    (rounded_bounds p m).1,
  )
    where
      p : ℕ
      p = per_hour vcpus memory_mb disk_gb * minutes duration
