-- ===== src/Encoding/Covered.antt =====
-- The types whose encoding is read back whole, and what their blocks leave out (core/encoding.go:
-- MarshalBlock, UnmarshalBlock).
use xe.Prelude.{
  ℕ, ◌≤◌, ◌≡◌, refl, sym, arith, Bool, true, false, not, ◌&&◌, List, [], ◌∷◌, length, some, none,
  ok, when_some, Bool-cases, inl, inr, ltb, ok_injective, fail_if, >>=-eq-ok,
}
use xe.Types.{Block, BlockType}
use xe.Memo.{validate_memo, max_memo_bytes}
use xe.Encoding.{type_byte, is_empty, is_genesis, timing_part, has_genesis_lease_timing}
use xe.Encoding.Decode.{wire_type, unmarshal_typed, unmarshal_block}
use xe.Encoding.Parts.{fail_if-eq-ok}
use xe.Encoding.Wire.{reads_back, wire_fields, min_len}

-- What holds of each type that is read back.
pub wire_type_back :
    (type : BlockType)
    → reads_back type ≡ true
    → when_some (type_byte type) none wire_type ≡ some (type, min_len type)
unfolding type_byte wire_type
wire_type_back BlockType.send r = refl
wire_type_back BlockType.receive r = refl
wire_type_back BlockType.lease r = refl
wire_type_back BlockType.lease_accept r = refl
wire_type_back BlockType.lease_settle r = refl
wire_type_back BlockType.lease_cancel r = refl
wire_type_back BlockType.lease_force_settle r = refl
wire_type_back BlockType.burn r = refl
wire_type_back BlockType.mint r = refl
wire_type_back BlockType.genesis r = cc
wire_type_back BlockType.multisig_open r = cc
wire_type_back BlockType.multisig_update r = cc
wire_type_back BlockType.lease_renew r = cc
wire_type_back (BlockType.other name) r = cc

pub not_genesis : (type : BlockType) → reads_back type ≡ true → is_genesis type ≡ false
not_genesis BlockType.send r = refl
not_genesis BlockType.receive r = refl
not_genesis BlockType.lease r = refl
not_genesis BlockType.lease_accept r = refl
not_genesis BlockType.lease_settle r = refl
not_genesis BlockType.lease_cancel r = refl
not_genesis BlockType.lease_force_settle r = refl
not_genesis BlockType.burn r = refl
not_genesis BlockType.mint r = refl
not_genesis BlockType.genesis r = cc
not_genesis BlockType.multisig_open r = cc
not_genesis BlockType.multisig_update r = cc
not_genesis BlockType.lease_renew r = cc
not_genesis (BlockType.other name) r = cc

pub kept :
    (b w : Block) (type : BlockType)
    → ((wire_fields b w type).type ≡ w.type) × ((wire_fields b w type).memo ≡ w.memo)
kept b w BlockType.send = (refl, refl)
kept b w BlockType.receive = (refl, refl)
kept b w BlockType.lease = (refl, refl)
kept b w BlockType.lease_accept = (refl, refl)
kept b w BlockType.lease_settle = (refl, refl)
kept b w BlockType.lease_cancel = (refl, refl)
kept b w BlockType.lease_force_settle = (refl, refl)
kept b w BlockType.burn = (refl, refl)
kept b w BlockType.mint = (refl, refl)
kept b w BlockType.genesis = (refl, refl)
kept b w BlockType.multisig_open = (refl, refl)
kept b w BlockType.multisig_update = (refl, refl)
kept b w BlockType.lease_renew = (refl, refl)
kept b w (BlockType.other name) = (refl, refl)

leb_of_ltb : (n m : ℕ) → ltb m n ≡ false → n ≤ m
leb_of_ltb n m h = ground arith

pub memo_short : (memo : List ℕ) → validate_memo memo ≡ ok tt → length memo ≤ max_memo_bytes
unfolding validate_memo
memo_short [] h = omega arith
memo_short (c ∷ rest) h =
    let (u, long, after) =
      >>=-eq-ok
        (fail_if (ltb max_memo_bytes (length (c ∷ rest))) "memo too long: %d bytes (max %d)") _ h in
    leb_of_ltb (length (c ∷ rest)) max_memo_bytes (fail_if-eq-ok _ _ long)

pub no_memo :
    (memo : List ℕ) (m : Bool) → m ≡ false → not (is_empty memo) && not m ≡ false → memo ≡ []
no_memo [] m h e = refl
no_memo (c ∷ rest) true h e = cc
no_memo (c ∷ rest) false h e = cc

pub no_timing :
    (b : Block) {timing : List ℕ}
    → is_genesis b.type ≡ false
    → timing_part b ≡ ok timing
    → timing ≡ []
unfolding timing_part
no_timing b late h = elim (Bool-cases (has_genesis_lease_timing b)) [
  | inl e ↦ (let refused = rw (e, late) at h in absurd (cc))
  | inr e ↦ (let none_set = rw e at h in sym (ok_injective none_set))
]

-- A type byte that is known decides how the bytes are read.
pub dispatched :
    (t : ℕ) (rest : List ℕ) {found : BlockType × ℕ}
    → wire_type t ≡ some found
    → unmarshal_block (2 ∷ t ∷ rest) ≡ unmarshal_typed (2 ∷ t ∷ rest) found
unfolding unmarshal_block
dispatched t rest h =
    let long : ltb (length (2 ∷ t ∷ rest)) 2 ≡ false = ground arith in rw (long, h) refl
