-- ===== src/Encoding/Hash.antt =====
-- The bytes that a block's hash covers besides its canonical bytes, and the hash (core/encoding.go:
-- MarshalBlockAux; core/crypto.go: HashBlock).
use Prim.Native.String.{compare}
use text.Mathlib.Text.{is_lt}
use xe.Prelude.{
  ℕ, String, Bool, true, false, List, [], ◌∷◌, ◌++◌, Option, Result, ok, ◌>>=◌, when_some,
  if◌then◌else◌, length,
}
use xe.Prelude.Int.{bits_64}
use xe.Bytes.{text_bytes, encode_hex}
use xe.Types.{Block, BlockType, TimekeeperAttestation}
use xe.Store.{is_set}
use xe.Encoding.{be_64, marshal_block_canonical}

abbrev len_prefixed : List ℕ → List ℕ
len_prefixed bytes = be_64 (length bytes) ++ bytes

abbrev signs_terms : BlockType → Bool
signs_terms BlockType.lease = true
signs_terms BlockType.lease_accept = true
signs_terms BlockType.lease_settle = true
signs_terms BlockType.lease_force_settle = true
signs_terms BlockType.lease_renew = true
signs_terms _ = false

-- `sort.Slice` by the key.
abbrev insert_attestation :
    TimekeeperAttestation → List TimekeeperAttestation → List TimekeeperAttestation
insert_attestation a [] = a ∷ []
insert_attestation a (c ∷ rest) =
    if is_lt (compare c.public_key a.public_key)
    then c ∷ insert_attestation a rest
    else a ∷ c ∷ rest

abbrev sort_attestations : List TimekeeperAttestation → List TimekeeperAttestation
sort_attestations [] = []
sort_attestations (a ∷ rest) = insert_attestation a (sort_attestations rest)

unfoldable pub attestation_bytes : List TimekeeperAttestation → List ℕ
attestation_bytes [] = []
attestation_bytes (a ∷ rest) =
    len_prefixed (text_bytes a.public_key)
    ++ (be_64 (bits_64 a.timestamp)
        ++ (len_prefixed (text_bytes a.signature) ++ attestation_bytes rest))

unfoldable pub marshal_block_aux : Block → List ℕ
unfolding attestation_bytes
marshal_block_aux b =
    let key =
      if is_set b.pub_key
      then len_prefixed (text_bytes "xe/block/pubkey/v1") ++ len_prefixed (text_bytes b.pub_key)
      else [] in
    if signs_terms b.type
    then key
      ++ (len_prefixed (text_bytes b.certificate_hash)
          ++ (be_64 (length b.attestations)
              ++ attestation_bytes (sort_attestations b.attestations)))
    else key

-- `HashBlock`, over SHA-256, with the network's id where one is set.
unfoldable pub hash_block : (List ℕ → List ℕ) → Option (List ℕ) → Block → Result String
hash_block sha256 network b = do
  canonical ← marshal_block_canonical b
  ok (encode_hex (sha256 (when_some network [] (λ id. id) ++ (canonical ++ marshal_block_aux b))))
