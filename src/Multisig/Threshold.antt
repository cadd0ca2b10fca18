-- ===== src/Multisig/Threshold.antt =====
-- What VerifyMultisig accepts (core/multisig.go).
use xe.Prelude.{
  ℕ, String, ◌≡◌, refl, arith, Bool, true, false, not, List, [], ◌∷◌, Result, ok, err, >>=-eq-ok,
  ok_injective, length, All, fail_if,
}
use xe.Prelude.Int.{pos, ltb_ℤ, ◌≤ℤ◌}
use xe.Types.{Keyset, BlockSignature}
use xe.Attestation.{contains}
use xe.Multisig.{
  Verifier, count_valid, verify_multisig, verify_multisig_any, any_valid, verify_hex_signature,
  decode_hash, refuse, with_signer, is_empty,
}

-- The signers are distinct, and none of them is in `seen`.
abbrev pub AreDistinct : List String → List BlockSignature → Type 0
AreDistinct seen [] = Unit
AreDistinct seen (s ∷ rest) =
    (contains s.public_key seen ≡ false) × AreDistinct (s.public_key ∷ seen) rest

module _ (verify : Verifier) where
  -- The signature is a valid one of the message by a member of the keyset.
  abbrev pub IsBy : List ℕ → List String → BlockSignature → Type 0
  IsBy message keys s =
      (contains s.public_key keys ≡ true)
      × (verify_hex_signature verify s.public_key s.sig message ≡ ok tt)

  fail_if_inv : (t : Bool) (e : String) {u : Unit {0}} → fail_if t e ≡ ok u → t ≡ false
  fail_if_inv true e h = cc
  fail_if_inv false e h = refl

  with_signer_inv :
      (pk : String) (r : Result (Unit {0})) {u : Unit {0}} → with_signer pk r ≡ ok u → r ≡ ok tt
  with_signer_inv pk (ok u) h = refl
  with_signer_inv pk (err e) h = cc

  not_inv : (t : Bool) → not t ≡ false → t ≡ true
  not_inv true h = refl
  not_inv false h = cc

  count_valid_lem :
      (message : List ℕ) (keys seen : List String) (sigs : List BlockSignature) {n : ℕ}
      → count_valid verify message keys seen sigs ≡ ok n
      → (n ≡ length sigs) × All (IsBy message keys) sigs × AreDistinct seen sigs
  unfolding count_valid
  count_valid_lem message keys seen [] h = (ground arith, tt, tt)
  count_valid_lem message keys seen (s ∷ rest) {n} h =
      let (u₁, fresh, h₁) = >>=-eq-ok (refuse (contains s.public_key seen) s.public_key _) _ h in
      let (u₂, member, h₂) =
        >>=-eq-ok (refuse (not (contains s.public_key keys)) s.public_key _) _ h₁ in
      let (u₃, signed, h₃) =
        >>=-eq-ok
          (with_signer s.public_key (verify_hex_signature verify s.public_key s.sig message)) _
          h₂ in
      let (m, counted, h₄) =
        >>=-eq-ok (count_valid verify message keys (s.public_key ∷ seen) rest) _ h₃ in
      let ih = count_valid_lem message keys (s.public_key ∷ seen) rest counted in
      (
        omega (arith, ih.0, ok_injective h₄),
        ((not_inv _ (fail_if_inv _ _ member), with_signer_inv _ _ signed), ih.1),
        (fail_if_inv _ _ fresh, ih.2),
      )

  -- If VerifyMultisig accepts, then the hash decodes, there are at least as many signatures as the
  -- threshold, each is a valid signature of the hash by a key of the keyset, and no two are in the
  -- name of one key.
  pub verify_multisig_lem :
      (hash : String) (sigs : List BlockSignature) (ks : Keyset)
      → verify_multisig verify hash sigs ks ≡ ok tt
      → (message : List ℕ) × (decode_hash hash ≡ ok message)
        × (ks.threshold ≤ℤ pos (length sigs))
        × All (IsBy message ks.keys) sigs
        × AreDistinct [] sigs
  unfolding verify_multisig
  verify_multisig_lem hash sigs ks h =
      let (u₁, some_sigs, h₁) = >>=-eq-ok (fail_if (is_empty sigs) "no signatures") _ h in
      let (message, decoded, h₂) = >>=-eq-ok (decode_hash hash) _ h₁ in
      let (n, counted, h₃) = >>=-eq-ok (count_valid verify message ks.keys [] sigs) _ h₂ in
      let c = count_valid_lem message ks.keys [] sigs counted in
      let enough : ltb_ℤ (pos n) ks.threshold ≡ false = fail_if_inv _ _ h₃ in
      (message, decoded, ground (arith, c.0, enough), c.1, c.2)

  any_valid_lem :
      (message : List ℕ) (keys : List String) (s : BlockSignature) (rest : List BlockSignature)
      → IsBy message keys s
      → any_valid verify message keys (s ∷ rest) ≡ true
  unfolding any_valid
  any_valid_lem message keys s rest h = rw (h.0, h.1)

  -- What VerifyMultisig accepts, VerifyMultisigAny accepts.
  pub multisig-any :
      (hash : String) (sigs : List BlockSignature) (ks : Keyset)
      → verify_multisig verify hash sigs ks ≡ ok tt
      → verify_multisig_any verify hash sigs ks ≡ ok tt
  unfolding verify_multisig_any verify_multisig
  multisig-any hash [] ks h = cc
  multisig-any hash (s ∷ rest) ks h =
      let (message, decoded, enough, all, distinct) = verify_multisig_lem hash (s ∷ rest) ks h in
      rw (decoded, any_valid_lem message ks.keys s rest all.0)
