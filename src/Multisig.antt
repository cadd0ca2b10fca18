-- ===== src/Multisig.antt =====
-- Keysets and their signatures (core/multisig.go), with the decoders of core/crypto.go that they
-- call. ed25519 is a parameter. An index out of range is a panic, an error of its own here.
pub mod Panic
pub mod Threshold
use xe.Prelude.{
  ℕ, suc, String, Bool, true, false, not, ◌&&◌, ◌||◌, Option, none, some, List, [], ◌∷◌, Result, ok,
  err, ◌>>=◌, ◌>>◌, require, fail_if, some_or, ltb, ◌==◌, if◌then◌else◌, length,
}
use xe.Prelude.Int.{ℤ, pos, ltb_ℤ}
use xe.Types.{Keyset, BlockSignature, BlockType}
use xe.Hex.{byte_length, decode_hex}
use xe.Attestation.{contains}

-- `ed25519.Verify(pub, message, sig)`
abbrev pub Verifier : Type 0
Verifier = List ℕ → List ℕ → List ℕ → Bool

unfoldable pub decode_public_key : String → Result (List ℕ)
decode_public_key hex_str = do
  b ← some_or (decode_hex hex_str) "invalid public key hex: %w"
  require (length b == 32) "invalid public key length: got %d, want %d"
  ok b

unfoldable pub decode_signature : String → Result (List ℕ)
decode_signature hex_str = do
  b ← some_or (decode_hex hex_str) "invalid signature hex: %w"
  require (length b == 64) "invalid signature length: got %d, want %d"
  ok b

unfoldable pub decode_hash : String → Result (List ℕ)
decode_hash hex_str = do
  b ← some_or (decode_hex hex_str) "invalid hash hex: %w"
  require (length b == 32) "invalid hash length: got %d, want 32"
  ok b

unfoldable pub verify_hex_signature : Verifier → String → String → List ℕ → Result (Unit {0})
verify_hex_signature verify pub_key_hex sig_hex message = do
  key ← decode_public_key pub_key_hex
  sig ← decode_signature sig_hex
  require (verify key message sig) "signature verification failed"

abbrev same_bytes : List ℕ → List ℕ → Bool
same_bytes [] [] = true
same_bytes (x ∷ xs) (y ∷ ys) = x == y && same_bytes xs ys
same_bytes _ _ = false

abbrev contains_bytes : List ℕ → List (List ℕ) → Bool
contains_bytes k [] = false
contains_bytes k (j ∷ rest) = same_bytes j k || contains_bytes k rest

-- The loop over the keys; a key is seen by its bytes, which its lower-case text stands for.
unfoldable pub validate_keys : List (List ℕ) → List String → Result (Unit {0})
validate_keys seen [] = ok tt
validate_keys seen (k ∷ rest) = do
  require (byte_length k == 64) "key %d: expected 64 hex chars, got %d"
  bytes ← some_or (decode_hex k) "key %d: invalid hex: %w"
  fail_if (contains_bytes bytes seen) "duplicate key: %s"
  validate_keys (bytes ∷ seen) rest

abbrev pub is_empty {ℓ} : {A : Type ℓ} → List A → Bool
is_empty [] = true
is_empty (x ∷ xs) = false

unfoldable pub validate_keyset : Option Keyset → Result (Unit {0})
validate_keyset keyset = do
  ks ← some_or keyset "keyset is nil"
  fail_if (is_empty ks.keys) "keyset has no keys"
  fail_if (ltb_ℤ ks.threshold (pos 1)) "keyset threshold must be >= 1, got %d"
  fail_if (ltb_ℤ (pos (length ks.keys)) ks.threshold) "keyset threshold %d exceeds key count %d"
  validate_keys [] ks.keys

-- An error that prints `pk[:12]`, which panics on a shorter text.
abbrev pub slice_panic : String
slice_panic = "panic: slice bounds out of range"

abbrev pub refuse : Bool → String → String → Result (Unit {0})
refuse t pk e = fail_if t (if ltb (byte_length pk) 12 then slice_panic else e)

-- The errors of a signature, whose text prints `pk[:12]`.
abbrev with_signer : String → Result (Unit {0}) → Result (Unit {0})
with_signer pk (ok u) = ok u
with_signer pk (err e) = err (if ltb (byte_length pk) 12 then slice_panic else e)

-- The loop of `VerifyMultisig`: the number of valid signatures.
unfoldable pub count_valid :
    Verifier → List ℕ → List String → List String → List BlockSignature → Result ℕ
count_valid verify message keys seen [] = ok 0
count_valid verify message keys seen (s ∷ rest) = do
  refuse (contains s.public_key seen) s.public_key "duplicate signer: %s"
  refuse (not (contains s.public_key keys)) s.public_key "signer %s not in keyset"
  with_signer s.public_key (verify_hex_signature verify s.public_key s.sig message)
  n ← count_valid verify message keys (s.public_key ∷ seen) rest
  ok (suc n)

unfoldable pub verify_multisig :
    Verifier → String → List BlockSignature → Keyset → Result (Unit {0})
verify_multisig verify hash sigs ks = do
  fail_if (is_empty sigs) "no signatures"
  message ← decode_hash hash
  n ← count_valid verify message ks.keys [] sigs
  fail_if (ltb_ℤ (pos n) ks.threshold) "insufficient signatures: got %d, need %d"

abbrev is_ok : Result (Unit {0}) → Bool
is_ok (ok u) = true
is_ok (err e) = false

-- The loop of `VerifyMultisigAny`.
unfoldable pub any_valid : Verifier → List ℕ → List String → List BlockSignature → Bool
any_valid verify message keys [] = false
any_valid verify message keys (s ∷ rest) =
    (contains s.public_key keys && is_ok (verify_hex_signature verify s.public_key s.sig message))
    || any_valid verify message keys rest

unfoldable pub verify_multisig_any :
    Verifier → String → List BlockSignature → Keyset → Result (Unit {0})
verify_multisig_any verify hash sigs ks = do
  fail_if (is_empty sigs) "no signatures"
  message ← decode_hash hash
  require (any_valid verify message ks.keys sigs) "no valid signature from any keyset member"

unfoldable pub is_spending_op : BlockType → Bool
is_spending_op BlockType.send = true
is_spending_op BlockType.burn = true
is_spending_op BlockType.lease = true
is_spending_op BlockType.lease_renew = true
is_spending_op BlockType.multisig_open = true
is_spending_op BlockType.multisig_update = true
is_spending_op BlockType.mint = true
is_spending_op _ = false
