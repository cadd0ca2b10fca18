-- ===== src/Attestation.antt =====
-- The attestations of trusted timekeepers (core/attestation.go, ValidateAttestations): the time of a
-- lease event is the lower median of the timestamps that count.
pub mod Median
use xe.Prelude.{
  ℕ, ◌-◌, ◌/◌, String, Bool, true, false, not, ◌&&◌, ◌||◌, Option, none, some, List, [], ◌∷◌,
  Result, ◌>>◌, fail_if, some_or, ltb, ◌==◌, str_eq, if◌then◌else◌, length, get_elem?,
}
use xe.Prelude.Int.{ℤ, pos, negsuc, ltb_ℤ, sub_64, neg_64}
use xe.Types.{TimekeeperAttestation}

abbrev pub max_attestations_per_block : ℕ
max_attestations_per_block = 20

abbrev pub contains : String → List String → Bool
contains k [] = false
contains k (j ∷ rest) = str_eq j k || contains k rest

-- `|t - now| > skew`, on int64.
unfoldable pub is_skewed : ℤ → ℤ → ℤ → Bool
is_skewed now skew t =
    let delta = sub_64 t now in ltb_ℤ skew (if ltb_ℤ delta (pos 0) then neg_64 delta else delta)

-- What an attestation is judged by: the trusted keys, the signature check for the lease, the
-- clock and the allowed skew (`none` where the block is synced and the skew is not checked).
pub record Judge : Type 0 where
  pub trusted : List String
  pub verify : TimekeeperAttestation → Bool
  pub now : ℤ
  pub skew : Option ℤ

abbrev pub skew_ok : Judge → TimekeeperAttestation → Bool
skew_ok j a = elim j.skew [ none ↦ true | some s ↦ not (is_skewed j.now s a.timestamp) ]

-- The attestation counts: it is from a trusted key that is not counted yet, signed, and in time.
unfoldable pub counts : Judge → List String → TimekeeperAttestation → Bool
counts j seen a =
    contains a.public_key j.trusted && not (contains a.public_key seen) && j.verify a && skew_ok j a

-- The loop over the attestations: the timestamps that count, in order.
unfoldable pub collect : Judge → List String → List TimekeeperAttestation → List ℤ
collect j seen [] = []
collect j seen (a ∷ rest) =
    let skipped = collect j seen rest in
    let taken = collect j (a.public_key ∷ seen) rest in
    if counts j seen a then a.timestamp ∷ taken else skipped

-- `sort.Slice` by `<`: for numbers every sort gives the same list.
unfoldable pub insert_sorted : ℤ → List ℤ → List ℤ
insert_sorted t [] = t ∷ []
insert_sorted t (u ∷ rest) = if ltb_ℤ u t then u ∷ insert_sorted t rest else t ∷ u ∷ rest

unfoldable pub sort : List ℤ → List ℤ
unfolding insert_sorted
sort [] = []
sort (t ∷ rest) = insert_sorted t (sort rest)

-- The index is out of range where nothing counts and the threshold is negative: Go panics.
unfoldable pub median : List ℤ → Result ℤ
median ts = some_or (get_elem? (sort ts) ((length ts - 1) / 2)) "runtime error: index out of range"

abbrev pub is_zero : ℤ → Bool
is_zero (pos n) = n == 0
is_zero (negsuc n) = false

unfoldable pub validate_attestations : Judge → ℤ → List TimekeeperAttestation → Result ℤ
validate_attestations j threshold attestations = do
  fail_if (is_zero threshold) "timekeeper threshold is zero"
  fail_if (ltb max_attestations_per_block (length attestations))
      "too many attestations: %d exceeds max %d"
  fail_if (ltb_ℤ (pos (length attestations)) threshold) "need %d attestations, got %d"
  let valid = collect j [] attestations
  fail_if (ltb_ℤ (pos (length valid)) threshold)
      "only %d valid attestations from trusted timekeepers, need %d"
  median valid
