-- ===== src/Tests/Signatures.antt =====
-- A keyset of two keys, and signatures in their names.
use xe.Prelude.{All, ◌≡◌, refl, ok, err, true, [], ◌∷◌, ◌++◌, ◌<◌, String, List, length, ℕ, arith}
use xe.Prelude.Int.{pos, ◌≤ℤ◌}
use xe.Types.{Keyset, BlockSignature}
use xe.Hex.{decode_hex, byte_length}
use xe.Multisig.{
  decode_hash, count_valid, verify_hex_signature, decode_public_key, decode_signature, Verifier,
  verify_multisig, verify_multisig_any, slice_panic,
}
use xe.Multisig.Threshold.{IsBy, AreDistinct, verify_multisig_lem, multisig-any}
use xe.Multisig.Panic.{panic_needs_short_signer, short_signer_panics}

-- Every signature is good.
abbrev trusting : Verifier
trusting = λ key message signature. true

abbrev first_key : String
first_key = "00000000000000000000000000000000000000000000000000000000000000aa"

abbrev second_key : String
second_key = "00000000000000000000000000000000000000000000000000000000000000bb"

abbrev keyset : Keyset
keyset = record { keys = first_key ∷ second_key ∷ []; threshold = pos 2 }

abbrev hash : String
hash = "00000000000000000000000000000000000000000000000000000000000000cc"

abbrev signature_of : String → BlockSignature
signature_of key = record {
  public_key = key;
  sig =
      "00000000000000000000000000000000000000000000000000000000000000dd00000000000000000000000000000000000000000000000000000000000000ee";
}

abbrev both : List BlockSignature
both = signature_of first_key ∷ signature_of second_key ∷ []

accepts : verify_multisig trusting hash both keyset ≡ ok tt
unfolding verify_multisig decode_hash decode_hex count_valid verify_hex_signature decode_public_key
    decode_signature
accepts = refl

multisig-any_example : verify_multisig_any trusting hash both keyset ≡ ok tt
multisig-any_example = multisig-any trusting hash both keyset accepts

verify_multisig_example :
    (message : List ℕ) × (decode_hash hash ≡ ok message)
    × (keyset.threshold ≤ℤ pos (length both))
    × All (IsBy trusting message keyset.keys) both
    × AreDistinct [] both
verify_multisig_example = verify_multisig_lem trusting hash both keyset accepts

-- A valid signature, then one in the name of a text of two bytes, then one more.
abbrev with_short : List BlockSignature
with_short = signature_of first_key ∷ signature_of "aa" ∷ signature_of second_key ∷ []

panics : verify_multisig trusting hash with_short keyset ≡ err slice_panic
unfolding verify_multisig decode_hash decode_hex count_valid verify_hex_signature decode_public_key
    decode_signature byte_length
panics = refl

panic_needs_short_signer_example :
    (message : List ℕ) × (decode_hash hash ≡ ok message)
    × (before : List BlockSignature) × (s : BlockSignature) × (rest : List BlockSignature)
    × (with_short ≡ before ++ s ∷ rest)
    × All (IsBy trusting message keyset.keys) before
    × AreDistinct [] before
    × (byte_length s.public_key < 12)
panic_needs_short_signer_example = panic_needs_short_signer trusting hash with_short keyset panics

short_signer_panics_example : verify_multisig trusting hash with_short keyset ≡ err slice_panic
unfolding decode_hash decode_hex byte_length verify_hex_signature decode_public_key decode_signature
short_signer_panics_example =
    short_signer_panics trusting hash (signature_of first_key ∷ []) (signature_of "aa")
      (signature_of second_key ∷ []) keyset _ refl ((refl, refl), tt) (refl, tt) (omega arith)
