-- ===== src/Multisig/Panic.antt =====
-- When VerifyMultisig panics (core/multisig.go: the errors that print pk[:12]).
mod Calm
use xe.Prelude.{
  ℕ, String, ◌≡◌, ◌<◌, refl, ap, subst, arith, Bool, true, false, not, List, [], ◌∷◌, ◌++◌, some,
  Result, ok, err, ◌>>=◌, ◌>>◌, All, fail_if, ltb, Bool-cases, inl, inr, if◌then◌else◌,
}
use xe.Prelude.Int.{pos, ltb_ℤ}
use xe.Types.{Keyset, BlockSignature}
use xe.Hex.{byte_length}
use xe.Multisig.{
  Verifier, count_valid, verify_multisig, decode_hash, refuse, slice_panic, with_signer, is_empty,
}
use xe.Multisig.Threshold.{AreDistinct, IsBy}
use xe.Multisig.Panic.Calm.{
  CannotPanic, error_text, fail_if-CannotPanic, decode_hash-CannotPanic,
  verify_hex_signature-CannotPanic, short_unsigned,
}

-- The three checks of one signature in the loop, and what follows them.
abbrev checked : Bool → Bool → String → Result (Unit {0}) → Result ℕ → Result ℕ
checked twice stranger pk r go_on =
    refuse twice pk "duplicate signer: %s"
    >> (refuse stranger pk "signer %s not in keyset" >> (with_signer pk r >> go_on))

short-panics :
    (twice stranger : Bool) (pk : String) (r : Result (Unit {0})) (go_on : Result ℕ)
    → ltb (byte_length pk) 12 ≡ true
    → ¬ (r ≡ ok tt)
    → checked twice stranger pk r go_on ≡ err slice_panic
short-panics true stranger pk r go_on short unsigned = rw short
short-panics false true pk r go_on short unsigned = rw short
short-panics false false pk (err e) go_on short unsigned = rw short
short-panics false false pk (ok u) go_on short unsigned = elim (unsigned refl) [ ]

-- A bind that fails, and not in its first part, fails in what follows it.
>>=-later {ℓ κ} :
    {V : Type ℓ} {W : Type κ} (first : Result V) (go_on : V → Result W) {e : String}
    → ¬ (first ≡ err e)
    → (first >>= go_on) ≡ err e
    → (v : V) × (first ≡ ok v) × (go_on v ≡ err e)
>>=-later (err t) go_on calm h = elim (calm (ap err (error_text h))) [ ]
>>=-later (ok v) go_on calm h = (v, refl, h)

-- A bind that fails, and not in what follows, fails in its first part.
>>=-first {ℓ κ} :
    {V : Type ℓ} {W : Type κ} (first : Result V) (go_on : V → Result W) {e : String}
    → ((v : V) → ¬ (go_on v ≡ err e))
    → (first >>= go_on) ≡ err e
    → first ≡ err e
>>=-first (err t) go_on calm h = ap err (error_text h)
>>=-first (ok v) go_on calm h = elim (calm v h) [ ]

not_empty :
    (before : List BlockSignature) (s : BlockSignature) (rest : List BlockSignature)
    → is_empty (before ++ s ∷ rest) ≡ false
not_empty [] s rest = refl
not_empty (t ∷ before) s rest = refl

not-eq-false : (t : Bool) → not t ≡ false → t ≡ true
not-eq-false true h = refl
not-eq-false false h = cc

long_error :
    (pk : String) {e : String}
    → ltb (byte_length pk) 12 ≡ false
    → ¬ (e ≡ slice_panic)
    → ¬ (
        Path
          (Result ℕ)
          (err (if ltb (byte_length pk) 12 then slice_panic else e))
          (err slice_panic))
long_error pk {e} long calm h = calm (
    error_text
      (subst (λ t. Path (Result ℕ) (err (if t then slice_panic else e)) (err slice_panic)) long h))

long-goes_on :
    (twice stranger : Bool) (pk : String) (r : Result (Unit {0})) (go_on : Result ℕ)
    → ltb (byte_length pk) 12 ≡ false
    → CannotPanic r
    → checked twice stranger pk r go_on ≡ err slice_panic
    → (twice ≡ false) × (stranger ≡ false) × (r ≡ ok tt) × (go_on ≡ err slice_panic)
long-goes_on true stranger pk r go_on long calm h = elim (long_error pk long (λ j. cc) h) [ ]
long-goes_on false true pk r go_on long calm h = elim (long_error pk long (λ j. cc) h) [ ]
long-goes_on false false pk (err e) go_on long calm h =
    elim (long_error pk long (λ j. calm (ap err j)) h) [ ]
long-goes_on false false pk (ok u) go_on long calm h = (refl, refl, refl, h)

module _ (verify : Verifier) where
  -- If the loop panics, then it does so at a signature in the name of a short text, and all that it
  -- has counted before it are valid, in the names of distinct members.
  panic-short_signer :
      (message : List ℕ) (keys seen : List String) (sigs : List BlockSignature)
      → count_valid verify message keys seen sigs ≡ err slice_panic
      → (before : List BlockSignature) × (s : BlockSignature) × (rest : List BlockSignature) × (sigs
          ≡ before ++ s ∷ rest)
        × All (IsBy verify message keys) before
        × AreDistinct seen before
        × (byte_length s.public_key < 12)
  unfolding count_valid
  panic-short_signer message keys seen [] h = cc
  panic-short_signer message keys seen (s ∷ rest) h =
      elim (Bool-cases (ltb (byte_length s.public_key) 12)) [
        | inl short ↦ ([], s, rest, refl, tt, tt, ground arith)
        | inr long ↦
            let (fresh, member, signed, after) =
              long-goes_on _ _ s.public_key _ _ long
                (verify_hex_signature-CannotPanic verify s.public_key s.sig message) h in
            let (before, t, left, split, valid, distinct, short) =
              panic-short_signer message keys (s.public_key ∷ seen) rest
                (>>=-first _ _ (λ n j. cc) after) in
            (
              s ∷ before,
              t,
              left,
              ap (λ l. s ∷ l) split,
              ((not-eq-false _ member, signed), valid),
              (fresh, distinct),
              short,
            )
      ]

  -- After signatures that are valid, in the names of distinct members, a signature in the name of a
  -- short text makes the loop panic.
  short_signer-panic :
      (message : List ℕ) (keys seen : List String) (before : List BlockSignature)
      (s : BlockSignature) (rest : List BlockSignature)
      → All (IsBy verify message keys) before
      → AreDistinct seen before
      → byte_length s.public_key < 12
      → count_valid verify message keys seen (before ++ s ∷ rest) ≡ err slice_panic
  unfolding count_valid
  short_signer-panic message keys seen [] s rest valid distinct short =
      let is_short : ltb (byte_length s.public_key) 12 ≡ true = ground arith in
      short-panics _ _ s.public_key _ _ is_short
        (short_unsigned verify s.public_key s.sig message is_short)
  short_signer-panic message keys seen (t ∷ before) s rest valid distinct short =
      let ih =
        short_signer-panic message keys (t.public_key ∷ seen) before s rest valid.1 distinct.1
          short in
      rw (distinct.0, valid.0.0, valid.0.1, ih)

  counted_panic :
      (hash : String) (sigs : List BlockSignature) (ks : Keyset)
      → verify_multisig verify hash sigs ks ≡ err slice_panic
      → (message : List ℕ) × (decode_hash hash ≡ ok message)
        × (count_valid verify message ks.keys [] sigs ≡ err slice_panic)
  unfolding verify_multisig
  counted_panic hash sigs ks h =
      let (u, filled, h₁) =
        >>=-later (fail_if (is_empty sigs) "no signatures") _
          (fail_if-CannotPanic (λ j. cc) (is_empty sigs)) h in
      let (message, decoded, h₂) =
        >>=-later (decode_hash hash) _ (decode_hash-CannotPanic hash) h₁ in
      (
        message,
        decoded,
        >>=-first (count_valid verify message ks.keys [] sigs) _
            (λ n. fail_if-CannotPanic (λ j. cc) (ltb_ℤ (pos n) ks.threshold)) h₂,
      )

  -- If VerifyMultisig panics, then the hash decodes, and the signatures are some valid ones in the
  -- names of distinct members of the keyset, then one in the name of a text of fewer than 12 bytes,
  -- then any others.
  pub panic_needs_short_signer :
      (hash : String) (sigs : List BlockSignature) (ks : Keyset)
      → verify_multisig verify hash sigs ks ≡ err slice_panic
      → (message : List ℕ) × (decode_hash hash ≡ ok message)
        × (before : List BlockSignature) × (s : BlockSignature) × (rest : List BlockSignature)
        × (sigs ≡ before ++ s ∷ rest)
        × All (IsBy verify message ks.keys) before
        × AreDistinct [] before
        × (byte_length s.public_key < 12)
  panic_needs_short_signer hash sigs ks h =
      let p = counted_panic hash sigs ks h in
      let q = panic-short_signer p.0 ks.keys [] sigs p.2 in
      (p.0, p.1, q.0, q.1, q.2, q.3, q.4, q.5, q.6)

  -- If the hash decodes, then after any valid signatures in the names of distinct members of the
  -- keyset, one in the name of a text of fewer than 12 bytes makes VerifyMultisig panic, whatever
  -- follows it.
  pub short_signer_panics :
      (hash : String) (before : List BlockSignature) (s : BlockSignature)
      (rest : List BlockSignature) (ks : Keyset) (message : List ℕ)
      → decode_hash hash ≡ ok message
      → All (IsBy verify message ks.keys) before
      → AreDistinct [] before
      → byte_length s.public_key < 12
      → verify_multisig verify hash (before ++ s ∷ rest) ks ≡ err slice_panic
  unfolding verify_multisig
  short_signer_panics hash before s rest ks message decoded valid distinct short =
      let counted = short_signer-panic message ks.keys [] before s rest valid distinct short in
      rw (not_empty before s rest, decoded, counted)
