-- ===== src/Lease.antt =====
-- The price, the limits and the emission of a lease: core/ledger.go (LeaseCost, LeaseStake,
-- ValidateLeaseDimensions, ApplyGenesisLeaseTiming, CapR, LeaseEmissionChecked,
-- LeaseTotalEmission, renewalMayBeMissing) and core/types.go (EffectiveExpiry).
pub mod Cost
pub mod Emission
use xe.Prelude.{
  ℕ, ◌+◌, ◌-◌, ◌*◌, ◌%◌, Bool, true, false, ◌&&◌, ◌||◌, Option, none, some, List, [], ◌∷◌, Result,
  ok, err, ◌>>=◌, ◌>>◌, fail_if, some_or, ltb, ◌==◌, if◌then◌else◌,
}
use xe.Prelude.Int.{ℤ, pos, negsuc, add_64, int_64}
use xe.Word.{modulus, safe_mul, safe_add, ceil_div}
use xe.Types.{Block, Lease, LeaseSegment, effective_duration_secs}

abbrev pub lease_max_duration : ℕ
lease_max_duration = 31_536_000

abbrev pub lease_vcpu_rate : ℕ
lease_vcpu_rate = 20_000

abbrev pub lease_mem_gb_rate : ℕ
lease_mem_gb_rate = 10_000

abbrev pub lease_disk_gb_rate : ℕ
lease_disk_gb_rate = 1_000

abbrev pub lease_stake_divisor : ℕ
lease_stake_divisor = 0

abbrev pub lease_max_vcpus : ℕ
lease_max_vcpus = 4_096

abbrev pub lease_max_memory_mb : ℕ
lease_max_memory_mb = 67_108_864

abbrev pub lease_max_disk_gb : ℕ
lease_max_disk_gb = 1_048_576

-- The package variables that the genesis block sets; times are in nanoseconds.
pub record LeaseTiming : Type 0 where
  pub lease_min_duration : ℕ
  pub lease_settle_grace : ℤ
  pub lease_force_settle_gap : ℤ
  pub lease_escrow_expiry : ℤ
  pub lease_archive_gap : ℤ
  pub max_attestation_skew : ℤ

abbrev pub second : ℕ
second = 1_000_000_000

abbrev pub default_timing : LeaseTiming
default_timing = record {
  lease_min_duration = 60;
  lease_settle_grace = pos (3600 * second);
  lease_force_settle_gap = pos (25 * 60 * second);
  lease_escrow_expiry = pos (365 * 24 * 3600 * second);
  lease_archive_gap = pos (3600 * second);
  max_attestation_skew = pos (10 * 60 * second);
}

-- `if v != 0 { x = v }`
abbrev or_default : ℤ → ℤ → ℤ
or_default (pos n) d = if n == 0 then d else pos n
or_default (negsuc n) d = negsuc n

unfoldable pub apply_genesis_lease_timing : Option Block → LeaseTiming
apply_genesis_lease_timing none = default_timing
apply_genesis_lease_timing (some b) = record {
  lease_min_duration =
      if b.lease_min_duration_secs == 0
      then default_timing.lease_min_duration
      else b.lease_min_duration_secs;
  lease_settle_grace = or_default b.lease_settle_grace_ns default_timing.lease_settle_grace;
  lease_force_settle_gap =
      or_default b.lease_force_settle_gap_ns default_timing.lease_force_settle_gap;
  lease_escrow_expiry = or_default b.lease_escrow_expiry_ns default_timing.lease_escrow_expiry;
  lease_archive_gap = or_default b.lease_archive_gap_ns default_timing.lease_archive_gap;
  max_attestation_skew = or_default b.max_attestation_skew_ns default_timing.max_attestation_skew;
}

unfoldable pub lease_stake : ℕ → ℕ
lease_stake cost =
    if lease_stake_divisor == 0
    then 0
    else let stake = ceil_div cost lease_stake_divisor in if stake == 0 then 1 else stake

-- `v` raised to 1 where it is 0.
abbrev at_least_one : ℕ → ℕ
at_least_one v = if v == 0 then 1 else v

unfoldable pub lease_cost : LeaseTiming → ℕ → ℕ → ℕ → ℕ → ℕ → Result ℕ
lease_cost timing vcpus memory_mb disk_gb duration multiplier_milli = do
  fail_if (multiplier_milli == 0) "multiplierMilli must be non-zero"
  fail_if (ltb duration timing.lease_min_duration) "duration must be >= %d seconds, got %d"
  fail_if (ltb lease_max_duration duration) "duration must be <= %d seconds, got %d"
  let minutes = ceil_div duration 60
  let mem_gb = ceil_div memory_mb 1024
  vcpu_micro ← some_or (safe_mul vcpus lease_vcpu_rate) "overflow: vcpus(%d) * LeaseVCPURate(%d)"
  mem_micro ← some_or (safe_mul mem_gb lease_mem_gb_rate) "overflow: memGB(%d) * LeaseMemGBRate(%d)"
  disk_micro ←
      some_or (safe_mul disk_gb lease_disk_gb_rate) "overflow: diskGB(%d) * LeaseDiskGBRate(%d)"
  vm_micro ← some_or (safe_add vcpu_micro mem_micro) "overflow: perHourMicro vcpu(%d) + mem(%d)"
  per_hour_micro ← some_or (safe_add vm_micro disk_micro) "overflow: perHourMicro(%d) + disk(%d)"
  fail_if (per_hour_micro == 0) "lease requires at least some resources"
  per_minute_scaled ←
      some_or (safe_mul per_hour_micro minutes) "overflow: perHourMicro(%d) * minutes(%d)"
  let cost_micro = ceil_div per_minute_scaled 60
  scaled ←
      some_or (safe_mul cost_micro multiplier_milli) "overflow: costMicro(%d) * multiplierMilli(%d)"
  ok (at_least_one (ceil_div scaled 1000))

unfoldable pub validate_lease_dimensions : LeaseTiming → ℕ → ℕ → ℕ → ℕ → Result (Unit {0})
validate_lease_dimensions timing vcpus memory_mb disk_gb duration = do
  fail_if (vcpus == 0 && memory_mb == 0 && disk_gb == 0)
      "lease must request at least one resource (vcpus, memory, or disk)"
  fail_if (ltb lease_max_vcpus vcpus) "lease vcpus must be <= %d, got %d"
  fail_if (ltb lease_max_memory_mb memory_mb) "lease memory_mb must be <= %d, got %d"
  fail_if (ltb lease_max_disk_gb disk_gb) "lease disk_gb must be <= %d, got %d"
  fail_if (ltb duration timing.lease_min_duration) "lease duration must be >= %d seconds"
  fail_if (ltb lease_max_duration duration) "lease duration must be <= %d seconds"

-- `int64(d) * int64(time.Second)`, which wraps.
unfoldable pub effective_expiry : Lease → ℤ
effective_expiry l = add_64 l.start_time (int_64 (effective_duration_secs l * second % modulus))

unfoldable pub cap_r : ℕ → ℕ → ℕ → ℕ
cap_r r payout_cap twap_milli_usd =
    if payout_cap == 0 || twap_milli_usd == 0 then r else elim (safe_mul payout_cap 1000) [
      | none ↦ r
      | some scaled ↦
          let r_cap_max = ceil_div scaled twap_milli_usd in if ltb r_cap_max r then r_cap_max else r
    ]

unfoldable pub lease_emission_checked : ℕ → ℕ → Result ℕ
lease_emission_checked cost r = do
  product ← some_or (safe_mul cost r) "lease emission overflow: cost(%d) * r(%d)"
  ok (at_least_one (ceil_div product 1000))

-- The loop over the renewals, from the running total.
unfoldable pub renewals_emission : ℕ → List LeaseSegment → Result ℕ
renewals_emission total [] = ok total
renewals_emission total (seg ∷ rest) = do
  seg_xe ←
      lease_emission_checked seg.cost (cap_r seg.locked_r seg.locked_payout_cap seg.locked_twap)
  sum ← some_or (safe_add total seg_xe) "lease emission overflow summing renewal %d"
  renewals_emission sum rest

unfoldable pub lease_total_emission : Lease → Result ℕ
lease_total_emission l = do
  total ← lease_emission_checked l.cost (cap_r l.locked_r l.locked_payout_cap l.locked_twap)
  renewals_emission total l.renewals

unfoldable pub renewal_may_be_missing : Lease → Bool
renewal_may_be_missing l = ltb (effective_duration_secs l) lease_max_duration
