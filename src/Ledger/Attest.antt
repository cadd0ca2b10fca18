-- ===== src/Ledger/Attest.antt =====
-- The time that a lease block is attested at, and the emission parameters that it locks
-- (core/ledger.go: the ValidateAttestations calls of the lease handlers, validateLockedEmissionAt).
use xe.Prelude.{
  ℕ, String, Bool, false, ◌&&◌, none, some, List, [], ◌∷◌, Result, ok, err, ◌>>=◌, some_or, ◌==◌,
  ◌||◌, if◌then◌else◌,
}
use xe.Prelude.Int.{ℤ}
use xe.Types.{Block}
use xe.Attestation.{validate_attestations}
use xe.Ledger.{LedgerConfig, EpochParams}

-- The median attested time of the block's attestations for the lease that its source names. The
-- errors of `ValidateAttestations` are wrapped by the handlers; here they are kept as they are.
unfoldable pub attested_time : LedgerConfig → Bool → Block → String → Result ℤ
attested_time cfg skip_skew b not_configured = do
  config ← some_or cfg.timekeeper_config not_configured
  validate_attestations
      (record {
        trusted = config.keys;
        verify = λ a. cfg.verify_attestation a b.source;
        now = cfg.now;
        skew = if skip_skew then none else some cfg.timing.max_attestation_skew;
      })
      config.threshold b.attestations

abbrev matches_any : ℕ → ℕ → ℕ → List EpochParams → Bool
matches_any r payout_cap twap [] = false
matches_any r payout_cap twap (e ∷ rest) =
    (r == e.r && payout_cap == e.payout_cap && twap == e.twap) || matches_any r payout_cap twap rest

unfoldable pub check_candidates : List EpochParams → ℕ → ℕ → ℕ → Bool → Result (Unit {0})
check_candidates [] r payout_cap twap skip_skew =
    err "%s epoch not yet available for time %d: retry after statechain syncs"
check_candidates (e ∷ rest) r payout_cap twap skip_skew =
    if matches_any r payout_cap twap (e ∷ rest)
    then ok tt
    else if skip_skew
    then err
        "%s locked emission mismatch on sync: block (R=%d cap=%d twap=%d) != epoch@time (R=%d cap=%d twap=%d): retry after statechain syncs"
    else err
        "%s locked emission mismatch: block (R=%d cap=%d twap=%d) != epoch@time (R=%d cap=%d twap=%d)"

unfoldable pub validate_locked_emission_at : LedgerConfig → ℤ → Block → Bool → Result (Unit {0})
validate_locked_emission_at cfg at_time b skip_skew = elim cfg.epoch_at [
  | none ↦ ok tt
  | some epochs ↦
      check_candidates (epochs at_time) b.locked_r b.locked_payout_cap b.locked_twap skip_skew
]
