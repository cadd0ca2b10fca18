-- ===== src/Tests/Clock.antt =====
-- An attestation by a trusted timekeeper.
use xe.Prelude.{◌≡◌, refl, true, ok, none, [], ◌∷◌, List}
use xe.Prelude.Int.{pos}
use xe.Types.{TimekeeperAttestation}
use xe.Attestation.{Judge, validate_attestations, collect, counts, median, sort, insert_sorted}
use xe.Attestation.Median.{IsBacked, validate_attestations-IsBacked}

abbrev judge : Judge
judge = record { trusted = "clock" ∷ []; verify = λ a. true; now = pos 1_000; skew = none }

abbrev attestations : List TimekeeperAttestation
attestations = record { public_key = "clock"; timestamp = pos 900; signature = "" } ∷ []

attested_ok : validate_attestations judge (pos 1) attestations ≡ ok (pos 900)
unfolding validate_attestations collect counts median sort insert_sorted
attested_ok = refl

validate_attestations-IsBacked_example : IsBacked judge (pos 900) attestations
validate_attestations-IsBacked_example =
    validate_attestations-IsBacked judge (pos 1) attestations (pos 900) attested_ok
