-- ===== src/Encoding/Parts/Renewal.antt =====
-- A renewal that is encoded is not read back (core/encoding.go: MarshalBlock, unmarshalBlock).
use xe.Prelude.{
  some-injective, ◌≡◌, false, refl, List, ◌∷◌, ok, err, ℕ, some, ap, subst, ◌++◌, ◌∙◌, sym, length,
  ltb, arith,
}
use xe.Types.{Block, BlockType}
use xe.Bytes.{le}
use xe.Bytes.Laws.{flat}
use xe.Encoding.{type_byte, memo_part, marshal_block}
use xe.Encoding.Decode.{unmarshal_block}
use xe.Encoding.Parts.{marshal_block-parts, header_parts}

unread :
    (rest : List ℕ)
    → unmarshal_block (2 ∷ 0x0e ∷ rest) ≡ err "UnmarshalBlock: unknown type byte 0x%02x"
unfolding unmarshal_block
unread rest = let long : ltb (length (2 ∷ 0x0e ∷ rest)) 2 ≡ false = ground arith in rw long refl

-- Every lease_renew block that MarshalBlock encodes is refused by UnmarshalBlock, as a block of an
-- unknown type.
pub unmarshal_block-renewal :
    (b : Block) {bytes : List ℕ}
    → b.type ≡ BlockType.lease_renew
    → marshal_block b ≡ ok bytes
    → unmarshal_block bytes ≡ err "UnmarshalBlock: unknown type byte 0x%02x"
unfolding unmarshal_block type_byte
unmarshal_block-renewal b {bytes} renewal h =
    let (canonical, parts, whole) = marshal_block-parts b h in
    let t_renewal : some 0x0e ≡ some parts.t = ap type_byte (sym renewal) ∙ parts.typed in
    subst (λ d. unmarshal_block d ≡ err "UnmarshalBlock: unknown type byte 0x%02x")
      (ap (λ c. c ++ le 8 b.pow_nonce) parts.glued ∙ whole)
      (subst
        (λ c.
          unmarshal_block (
            flat (header_parts c b parts.account parts.previous)
              (parts.fields ++ (parts.rep ++ (parts.timing ++ memo_part b)))
            ++ le 8 b.pow_nonce)
          ≡ err "UnmarshalBlock: unknown type byte 0x%02x")
        (some-injective _ _ t_renewal) (unread _))
