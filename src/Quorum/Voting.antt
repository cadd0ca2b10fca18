-- ===== src/Quorum/Voting.antt =====
-- What is checked of a vote that comes in (core/vote.go: VerifyVoteSignature, ValidateVote,
-- isConflictNotFound, bufferVote, RepAccount; core/ledger.go: GetVoteWeight). The time of the call is an argument.
use xe.Prelude.{
  ℕ, String, Bool, true, false, ◌&&◌, Option, List, [], ◌∷◌, ◌++◌, Result, ok, err, ◌>>=◌, ◌>>◌,
  require, fail_if, when_some, ltb, leb, if◌then◌else◌, length,
}
use xe.Prelude.Int.{ℤ, pos, ltb_ℤ, sub_64}
use xe.Map.{Map, lookup, insert}
use xe.Store.{conflict_key}
use xe.Multisig.{Verifier, decode_public_key}
use xe.Ledger.{Ledger, number_at}
use xe.Ledger.Weights.{RepresentativeConfig, eligible_allowlist, rep_eligible}
use xe.Ledger.Credential.{Host}
use xe.Ledger.Admission.{Node}
use xe.Encoding.Vote.{vote_signing_bytes}
use xe.Quorum.{Vote}

unfoldable pub get_vote_weight : Option RepresentativeConfig → Ledger → String → ℕ
get_vote_weight cfg l rep =
    if rep_eligible (eligible_allowlist cfg l.weights) rep then number_at rep l.weights else 0

-- `RepAccount`: the address of the vote's key, or nothing.
unfoldable pub rep_account : Host → Vote → String
rep_account host v = elim (host.derive_address v.rep_pub_key) [ ok a ↦ a | err e ↦ "" ]

-- In nanoseconds.
abbrev pub vote_window_nanos : ℤ
vote_window_nanos = pos 300_000_000_000

abbrev pub max_pending_votes_per_conflict : ℕ
max_pending_votes_per_conflict = 10

-- The distance between a vote's time and now, on int64.
abbrev pub time_delta : ℤ → ℤ → ℤ
time_delta now t = if ltb_ℤ now t then sub_64 t now else sub_64 now t

abbrev is_ok : Result (Unit {0}) → Bool
is_ok (ok done) = true
is_ok (err e) = false

abbrev pub check_vote_signature : Verifier → Vote → Result (Unit {0})
check_vote_signature verify v = do
  key ← decode_public_key v.rep_pub_key
  signing ← vote_signing_bytes v
  require (verify key signing v.signature) "ValidateVote: signature verification failed"

unfoldable pub verify_vote_signature : Verifier → Vote → Bool
verify_vote_signature verify v = is_ok (check_vote_signature verify v)

unfoldable pub validate_vote : Node → Ledger → ℤ → Vote → Result (Unit {0})
validate_vote node l now v = do
  check_vote_signature node.host.verify v
  require (ltb 0 (get_vote_weight node.representatives l (rep_account node.host v)))
      "ValidateVote: representative %s has zero vote weight"
  fail_if (ltb_ℤ v.timestamp (pos 0)) "ValidateVote: timestamp must not be negative"
  fail_if (ltb_ℤ vote_window_nanos (time_delta now v.timestamp))
      "ValidateVote: timestamp out of range: delta=%v"

-- `isConflictNotFound`: the vote passes, and its fork is not on record.
unfoldable pub is_conflict_not_found : Node → Ledger → ℤ → Vote → Bool
is_conflict_not_found node l now v =
    is_ok (validate_vote node l now v)
    && when_some (lookup (conflict_key v.conflict_account v.conflict_prev) l.store.conflicts) true
        (λ c. false)

-- A vote for a fork that is not known yet waits for it, with at most nine others.
unfoldable pub buffer_vote : Vote → Map (List Vote) → Map (List Vote)
buffer_vote v waiting =
    let key = conflict_key v.conflict_account v.conflict_prev in
    let held = when_some (lookup key waiting) [] (λ vs. vs) in
    if leb max_pending_votes_per_conflict (length held)
    then waiting
    else insert key (held ++ v ∷ []) waiting
