-- ===== src/Encoding/Fields.antt =====
-- The fields of a block's type are read back from their bytes (core/encoding.go:
-- MarshalBlockCanonical, unmarshalBlock).
use xe.Prelude.{
  ℕ, ◌+◌, ◌<◌, ◌≡◌, refl, ap, ◌∙◌, subst, arith, String, true, List, [], ◌∷◌, ◌++◌, ok, >>=-eq-ok,
  ok_injective, length,
}
use xe.Word.{modulus}
use xe.Types.{Block, BlockType}
use xe.Bytes.{canonical_hex, encode_hex}
use xe.Bytes.Laws.{
  flat, flat-append, slice-part, length-be, length-flat, be_value-be, bound-Fits, total,
}
use xe.Encoding.{be_64, hex_32_or, tail_bytes, source_bytes, destination_bytes}
use xe.Encoding.Decode.{type_fields, hex_at, u64_at}
use xe.Encoding.Wire.{IsTyped, reads_back, wire_fields, fields_end}
use xe.Encoding.Texts.{hex_32-eq-ok, hex_32_or-eq-ok}

-- A number, and 32 bytes in hex, after the parts before them.
pub u64_at-part :
    (m n : ℕ) (before : List (List ℕ)) (after : List ℕ)
    → n < modulus
    → m ≡ total before
    → u64_at m (flat before (be_64 n ++ after)) ≡ n
unfolding u64_at
u64_at-part m n before after small h =
    rw
      (
        slice-part m 8 before (be_64 n) after h (length-be 8 n),
        be_value-be 8 n (bound-Fits n small),
      )
      refl

pub hex_at-part :
    (m : ℕ) (before : List (List ℕ)) (x after : List ℕ) {text : String}
    → length x ≡ 32
    → encode_hex x ≡ text
    → m ≡ total before
    → hex_at m (flat before (x ++ after)) ≡ text
unfolding hex_at
hex_at-part m before x after size same h = rw (slice-part m 32 before x after h size) same

module _ (b : Block) (typed : IsTyped b) (w : Block) (head : List ℕ) (head_90 : length head ≡ 90)
    (rest : List ℕ) where
  -- The bytes `fields` after the header are read as what the type keeps, up to the representative.
  abbrev pub Reads : BlockType → List ℕ → Type 0
  Reads type fields =
      (type_fields w (head ++ (fields ++ rest)) type ≡ ok (wire_fields b w type, fields_end type))
      × (length head + length fields ≡ fields_end type)

  from_parts :
      (type : BlockType) (before : List (List ℕ)) (last fields : List ℕ)
      → flat before last ≡ fields
      → type_fields w (flat (head ∷ before) (last ++ rest)) type
        ≡ ok (wire_fields b w type, fields_end type)
      → length head + (total before + length last) ≡ fields_end type
      → Reads type fields
  from_parts type before last fields same read size = subst (Reads type) same (
    ap (λ r. type_fields w (head ++ r) type) (flat-append before last rest) ∙ read,
    ap (λ n. length head + n) (length-flat before last) ∙ size,
  )

  source_part :
      (fields : List ℕ)
      → source_bytes b ≡ ok fields
      → (length fields ≡ 32) × (hex_at 90 (head ++ (fields ++ rest)) ≡ canonical_hex b.source)
  source_part fields h =
      let (size, text) = hex_32-eq-ok b.source _ _ h in
      (size, hex_at-part 90 (head ∷ []) fields rest size text (omega arith))

  receive-Reads :
      (fields : List ℕ)
      → tail_bytes b BlockType.receive ≡ ok fields
      → Reads BlockType.receive fields
  unfolding tail_bytes type_fields
  receive-Reads fields h = let (size, text) = source_part fields h in (rw text refl, omega arith)

  lease_cancel-Reads :
      (fields : List ℕ)
      → tail_bytes b BlockType.lease_cancel ≡ ok fields
      → Reads BlockType.lease_cancel fields
  unfolding tail_bytes type_fields
  lease_cancel-Reads fields h =
      let (size, text) = source_part fields h in (rw text refl, omega arith)

  lease_force_settle-Reads :
      (fields : List ℕ)
      → tail_bytes b BlockType.lease_force_settle ≡ ok fields
      → Reads BlockType.lease_force_settle fields
  unfolding tail_bytes type_fields
  lease_force_settle-Reads fields h =
      let (size, text) = source_part fields h in (rw text refl, omega arith)

  burn-Reads :
      (fields : List ℕ) → tail_bytes b BlockType.burn ≡ ok fields → Reads BlockType.burn fields
  unfolding tail_bytes type_fields
  burn-Reads fields h =
      from_parts BlockType.burn [] (be_64 b.amount) fields (ok_injective h)
        (rw (u64_at-part 90 b.amount (head ∷ []) rest typed.amount (omega arith)) refl)
        (omega (arith, length-be 8 b.amount))

  mint-Reads :
      (fields : List ℕ) → tail_bytes b BlockType.mint ≡ ok fields → Reads BlockType.mint fields
  unfolding tail_bytes type_fields
  mint-Reads fields h =
      from_parts BlockType.mint [] (be_64 b.amount) fields (ok_injective h)
        (rw (u64_at-part 90 b.amount (head ∷ []) rest typed.amount (omega arith)) refl)
        (omega (arith, length-be 8 b.amount))

  send-Reads :
      (fields : List ℕ) → tail_bytes b BlockType.send ≡ ok fields → Reads BlockType.send fields
  unfolding tail_bytes type_fields
  send-Reads fields h =
      let (dest, k, e) = >>=-eq-ok (destination_bytes b) (λ dest. ok (dest ++ be_64 b.amount)) h in
      let (size, text) = hex_32-eq-ok b.destination _ _ k in
      from_parts BlockType.send (dest ∷ []) (be_64 b.amount) fields (ok_injective e)
        (rw
          (
            hex_at-part 90 (head ∷ []) dest _ size text (omega arith),
            u64_at-part 122 b.amount (head ∷ dest ∷ []) rest typed.amount (omega arith),
          )
          refl)
        (omega (arith, length-be 8 b.amount))

  lease_settle-Reads :
      (fields : List ℕ)
      → tail_bytes b BlockType.lease_settle ≡ ok fields
      → Reads BlockType.lease_settle fields
  unfolding tail_bytes type_fields
  lease_settle-Reads fields h =
      let (source, k, e) = >>=-eq-ok (source_bytes b) (λ source. ok (source ++ be_64 b.amount)) h in
      let (size, text) = hex_32-eq-ok b.source _ _ k in
      from_parts BlockType.lease_settle (source ∷ []) (be_64 b.amount) fields (ok_injective e)
        (rw
          (
            hex_at-part 90 (head ∷ []) source _ size text (omega arith),
            u64_at-part 122 b.amount (head ∷ source ∷ []) rest typed.amount (omega arith),
          )
          refl)
        (omega (arith, length-be 8 b.amount))

  lease_accept-Reads :
      (fields : List ℕ)
      → tail_bytes b BlockType.lease_accept ≡ ok fields
      → Reads BlockType.lease_accept fields
  unfolding tail_bytes type_fields
  lease_accept-Reads fields h =
      let (source, k, e) = >>=-eq-ok (source_bytes b) _ h in
      let (size, text) = hex_32-eq-ok b.source _ _ k in
      let amount = be_64 b.amount in
      let r = be_64 b.locked_r in
      let cap = be_64 b.locked_payout_cap in
      let twap = be_64 b.locked_twap in
      let amount_8 = length-be 8 b.amount in
      let r_8 = length-be 8 b.locked_r in
      let cap_8 = length-be 8 b.locked_payout_cap in
      from_parts BlockType.lease_accept (source ∷ amount ∷ r ∷ cap ∷ []) twap fields
        (ok_injective e)
        (rw
          (
            hex_at-part 90 (head ∷ []) source _ size text (omega arith),
            u64_at-part 122 b.amount (head ∷ source ∷ []) _ typed.amount (omega arith),
            u64_at-part 130 b.locked_r (head ∷ source ∷ amount ∷ []) _ typed.locked_r (omega arith),
            u64_at-part 138 b.locked_payout_cap (head ∷ source ∷ amount ∷ r ∷ []) _
                typed.locked_payout_cap (omega arith),
            u64_at-part 146 b.locked_twap (head ∷ source ∷ amount ∷ r ∷ cap ∷ []) _
                typed.locked_twap (omega arith),
          )
          refl)
        (omega (arith, length-be 8 b.locked_twap))

  lease-Reads :
      (fields : List ℕ) → tail_bytes b BlockType.lease ≡ ok fields → Reads BlockType.lease fields
  unfolding tail_bytes type_fields
  lease-Reads fields h =
      let (dest, k, h₁) = >>=-eq-ok (destination_bytes b) _ h in
      let (key, k₁, e) =
        >>=-eq-ok
          (hex_32_or "" b.access_pub_key "MarshalBlock: invalid access_pub_key hex: %w"
            "MarshalBlock: access_pub_key must be 32 bytes, got %d")
          _ h₁ in
      let (size, text) = hex_32-eq-ok b.destination _ _ k in
      let (key_32, key_text) = hex_32_or-eq-ok "" b.access_pub_key _ _ k₁ in
      let amount = be_64 b.amount in
      let vcpus = be_64 b.vcpus in
      let memory = be_64 b.memory_mb in
      let disk = be_64 b.disk_gb in
      let time = be_64 b.duration in
      let amount_8 = length-be 8 b.amount in
      let vcpus_8 = length-be 8 b.vcpus in
      let memory_8 = length-be 8 b.memory_mb in
      let disk_8 = length-be 8 b.disk_gb in
      let time_8 = length-be 8 b.duration in
      let before = head ∷ dest ∷ amount ∷ vcpus ∷ memory ∷ disk ∷ time ∷ [] in
      from_parts BlockType.lease (dest ∷ amount ∷ vcpus ∷ memory ∷ disk ∷ time ∷ []) key fields
        (ok_injective e)
        (rw
          (
            hex_at-part 90 (head ∷ []) dest _ size text (omega arith),
            u64_at-part 122 b.amount (head ∷ dest ∷ []) _ typed.amount (omega arith),
            u64_at-part 130 b.vcpus (head ∷ dest ∷ amount ∷ []) _ typed.vcpus (omega arith),
            u64_at-part 138 b.memory_mb (head ∷ dest ∷ amount ∷ vcpus ∷ []) _ typed.memory_mb
                (omega arith),
            u64_at-part 146 b.disk_gb (head ∷ dest ∷ amount ∷ vcpus ∷ memory ∷ []) _ typed.disk_gb
                (omega arith),
            u64_at-part 154 b.duration (head ∷ dest ∷ amount ∷ vcpus ∷ memory ∷ disk ∷ []) _
                typed.duration (omega arith),
            slice-part 162 32 before key rest (omega arith) key_32,
            key_text,
          )
          refl)
        (omega arith)

  -- That is so for every type that is read back.
  pub fields-Reads :
      (type : BlockType) (fields : List ℕ)
      → reads_back type ≡ true
      → tail_bytes b type ≡ ok fields
      → Reads type fields
  fields-Reads BlockType.send fields r h = send-Reads fields h
  fields-Reads BlockType.receive fields r h = receive-Reads fields h
  fields-Reads BlockType.lease fields r h = lease-Reads fields h
  fields-Reads BlockType.lease_accept fields r h = lease_accept-Reads fields h
  fields-Reads BlockType.lease_settle fields r h = lease_settle-Reads fields h
  fields-Reads BlockType.lease_cancel fields r h = lease_cancel-Reads fields h
  fields-Reads BlockType.lease_force_settle fields r h = lease_force_settle-Reads fields h
  fields-Reads BlockType.burn fields r h = burn-Reads fields h
  fields-Reads BlockType.mint fields r h = mint-Reads fields h
  fields-Reads BlockType.genesis fields r h = cc
  fields-Reads BlockType.multisig_open fields r h = cc
  fields-Reads BlockType.multisig_update fields r h = cc
  fields-Reads BlockType.lease_renew fields r h = cc
  fields-Reads (BlockType.other name) fields r h = cc
