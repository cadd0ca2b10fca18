-- ===== src/Encoding/Vote/RoundTrip.antt =====
-- A vote is read back from its bytes.
use xe.Prelude.{
  ℕ, ◌+◌, ◌%◌, ◌^◌, ◌<◌, ◌≤◌, ◌≡◌, refl, sym, subst, ◌∙◌, ap, arith, String, Bool, true, false, not,
  List, [], ◌∷◌, ◌++◌, ok, >>=-eq-ok, ok_injective, ltb, ◌==◌, if◌then◌else◌, length, length-append,
}
use xe.Prelude.Int.{ℤ, bits_64, int_64, Int64}
use xe.Bytes.{be, encode_hex, canonical_hex}
use xe.Bytes.Laws.{
  be_value-be, bound-Fits, length-be, length-flat, slice-part, slice-last, byte_at-part, flat,
  flat-append, bits_back, bits_small,
}
use xe.Quorum.{Vote}
use xe.Encoding.{be_64, hex_32, hex_32_or}
use xe.Encoding.Decode.{hex_or}
use xe.Encoding.Texts.{canonical_or, hex_32-eq-ok, hex_32_or-eq-ok}
use xe.Encoding.Vote.{vote_version_byte, vote_signing_bytes, encode_vote, decode_vote}

abbrev vote_of : String → String → String → String → ℤ → Bool → List ℕ → Vote
vote_of rep hash account previous time final signature = record {
  rep_pub_key = rep;
  block_hash = hash;
  conflict_account = account;
  conflict_prev = previous;
  timestamp = time;
  final = final;
  signature = signature;
  weight = 0;
}

abbrev before_time : List ℕ → List ℕ → List ℕ → List ℕ → List (List ℕ)
before_time rep hash account previous =
    (vote_version_byte ∷ []) ∷ rep ∷ hash ∷ account ∷ previous ∷ []

abbrev before_end : List ℕ → List ℕ → List ℕ → List ℕ → ℕ → ℕ → List (List ℕ)
before_end rep hash account previous time final =
    (vote_version_byte ∷ []) ∷ rep ∷ hash ∷ account ∷ previous ∷ be_64 time ∷ (final ∷ []) ∷ []

module _ (rep hash account previous sig : List ℕ) (time final : ℕ) (rep_32 : length rep ≡ 32)
    (hash_32 : length hash ≡ 32) (account_32 : length account ≡ 32)
    (previous_32 : length previous ≡ 32) where
  abbrev all_parts : List (List ℕ)
  all_parts = before_end rep hash account previous time final

  abbrev bytes : List ℕ
  bytes = flat all_parts (be 2 (length sig) ++ sig)

  length-bytes : length bytes ≡ 140 + length sig
  length-bytes = omega (
    arith,
    length-flat all_parts (be 2 (length sig) ++ sig),
    length-be 8 time,
    length-be 2 (length sig),
    length-append (be 2 (length sig)) sig,
  )

  not_short : (n : ℕ) → n ≤ 140 + length sig → ltb (140 + length sig) n ≡ false
  not_short n h = ground arith

  decode_parts :
      time < 2 ^ 64
      → length sig < 2 ^ 16
      → decode_vote bytes
        ≡ ok (
            vote_of
              (encode_hex rep)
              (encode_hex hash)
              (encode_hex account)
              (hex_or "0" previous)
              (int_64 time)
              (not (final == 0))
              sig)
  unfolding decode_vote
  decode_parts small short =
      rw
        (
          length-bytes,
          slice-part 138 2 all_parts (be 2 (length sig)) sig (omega (arith, length-be 8 time))
              (length-be 2 (length sig)),
          be_value-be 2 (length sig) (omega arith),
          slice-part 1 32 ((vote_version_byte ∷ []) ∷ []) rep _ (omega arith) rep_32,
          slice-part 33 32 ((vote_version_byte ∷ []) ∷ rep ∷ []) hash _ (omega arith) hash_32,
          slice-part 65 32 ((vote_version_byte ∷ []) ∷ rep ∷ hash ∷ []) account _ (omega arith)
              account_32,
          slice-part 97 32 ((vote_version_byte ∷ []) ∷ rep ∷ hash ∷ account ∷ []) previous _
              (omega arith) previous_32,
          slice-part 129 8 (before_time rep hash account previous) (be_64 time) _ (omega arith)
              (length-be 8 time),
          be_value-be 8 time (bound-Fits time small),
          byte_at-part 137 (before_time rep hash account previous ++ be_64 time ∷ []) final _
              (omega (arith, length-be 8 time)),
          slice-last 140 (length sig) (all_parts ++ be 2 (length sig) ∷ []) sig
              (omega (arith, length-be 8 time, length-be 2 (length sig))) refl,
          not_short 140 (omega arith),
          not_short (140 + length sig) (omega arith),
        )
        refl

-- The vote as its bytes give it back: hex in lower case, zeros as "0", and no weight.
unfoldable pub canonical_vote : Vote → Vote
canonical_vote v = record v {
  rep_pub_key = canonical_hex v.rep_pub_key;
  block_hash = canonical_hex v.block_hash;
  conflict_account = canonical_hex v.conflict_account;
  conflict_prev = canonical_or "0" v.conflict_prev;
  weight = 0;
}

final_back : (b : Bool) → not ((if b then 1 else 0) == 0) ≡ b
final_back true = refl
final_back false = refl

same_vote :
    (v : Vote) {rep hash account previous : String} {time : ℤ} {final : Bool}
    → rep ≡ canonical_hex v.rep_pub_key
    → hash ≡ canonical_hex v.block_hash
    → account ≡ canonical_hex v.conflict_account
    → previous ≡ canonical_or "0" v.conflict_prev
    → time ≡ v.timestamp
    → final ≡ v.final
    → vote_of rep hash account previous time final v.signature ≡ canonical_vote v
unfolding canonical_vote
same_vote v r h a p t f = λ i. vote_of (r i) (h i) (a i) (p i) (t i) (f i) v.signature

-- What a vote that is encoded is made of.
abbrev IsVoteOf : Vote → List ℕ → List ℕ → List ℕ → List ℕ → List ℕ → Type 0
IsVoteOf v signing rep hash account previous =
    (length rep ≡ 32)
    × (length hash ≡ 32)
    × (length account ≡ 32)
    × (length previous ≡ 32)
    × (encode_hex rep ≡ canonical_hex v.rep_pub_key)
    × (encode_hex hash ≡ canonical_hex v.block_hash)
    × (encode_hex account ≡ canonical_hex v.conflict_account)
    × (hex_or "0" previous ≡ canonical_or "0" v.conflict_prev)
    × (flat (before_end rep hash account previous (bits_64 v.timestamp) (if v.final then 1 else 0))
          []
        ≡ signing)

vote_signing_bytes-parts :
    (v : Vote) {signing : List ℕ}
    → vote_signing_bytes v ≡ ok signing
    → (rep : List ℕ) × (hash : List ℕ) × (account : List ℕ) × (previous : List ℕ) × IsVoteOf v
        signing rep hash account previous
unfolding vote_signing_bytes
vote_signing_bytes-parts v h₀ =
    let (rep, h₁, rest₁) =
      >>=-eq-ok
        (hex_32 v.rep_pub_key "voteSigningBytes: invalid RepPubKey hex: %w"
          "voteSigningBytes: RepPubKey must be 32 bytes, got %d")
        _ h₀ in
    let (hash, h₂, rest₂) =
      >>=-eq-ok
        (hex_32 v.block_hash "voteSigningBytes: invalid BlockHash hex: %w"
          "voteSigningBytes: BlockHash must be 32 bytes, got %d")
        _ rest₁ in
    let (account, h₃, rest₃) =
      >>=-eq-ok
        (hex_32 v.conflict_account "voteSigningBytes: invalid ConflictAccount hex: %w"
          "voteSigningBytes: ConflictAccount must be 32 bytes, got %d")
        _ rest₂ in
    let (previous, h₄, rest₄) =
      >>=-eq-ok
        (hex_32_or "0" v.conflict_prev "voteSigningBytes: invalid ConflictPrev hex: %w"
          "voteSigningBytes: ConflictPrev must be 32 bytes, got %d")
        _ rest₃ in
    let (rep_32, rep_text) = hex_32-eq-ok v.rep_pub_key _ _ h₁ in
    let (hash_32, hash_text) = hex_32-eq-ok v.block_hash _ _ h₂ in
    let (account_32, account_text) = hex_32-eq-ok v.conflict_account _ _ h₃ in
    let (previous_32, previous_text) = hex_32_or-eq-ok "0" v.conflict_prev _ _ h₄ in
    (
      rep,
      hash,
      account,
      previous,
      (
        rep_32,
        hash_32,
        account_32,
        previous_32,
        rep_text,
        hash_text,
        account_text,
        previous_text,
        ok_injective rest₄,
      ),
    )

-- If every text of a vote decodes and its signature is shorter than 2^16 bytes, the bytes that
-- EncodeVote gives are read back by DecodeVote as the same vote, with its hex in lower case, a
-- previous hash of zeros as "0", and no weight.
pub decode-encode_vote :
    (v : Vote) {bytes : List ℕ}
    → Int64 v.timestamp
    → length v.signature < 2 ^ 16
    → encode_vote v ≡ ok bytes
    → decode_vote bytes ≡ ok (canonical_vote v)
unfolding encode_vote
decode-encode_vote v {bytes = bs} time short h =
    let sig = v.signature in
    let (signing, h₀, written) =
      >>=-eq-ok (vote_signing_bytes v)
        (λ signing. ok (signing ++ (be 2 (length sig % 2 ^ 16) ++ sig))) h in
    let (
      rep,
      hash,
      account,
      previous,
      (
        rep_32, hash_32, account_32, previous_32, rep_text, hash_text, account_text, previous_text,
        glued,
      ),
    ) =
      vote_signing_bytes-parts v h₀ in
    let n = bits_64 v.timestamp in
    let f : ℕ = if v.final then 1 else 0 in
    let before = before_end rep hash account previous n f in
    let wrap : length sig % 2 ^ 16 ≡ length sig = omega arith in
    let whole : flat before (be 2 (length sig) ++ sig) ≡ bs =
      sym (flat-append before [] (be 2 (length sig) ++ sig))
      ∙ ap (λ s. s ++ (be 2 (length sig) ++ sig)) glued
      ∙ ap (λ k. signing ++ (be 2 k ++ sig)) (sym wrap)
      ∙ ok_injective written in
    subst (λ d. decode_vote d ≡ ok (canonical_vote v)) whole
      (decode_parts rep hash account previous sig n f rep_32 hash_32 account_32 previous_32
          (bits_small v.timestamp) short
        ∙ ap ok (
            same_vote v rep_text hash_text account_text previous_text (bits_back v.timestamp time)
              (final_back v.final)))
