-- ===== src/Encoding/Texts.antt =====
-- The 32-byte hex fields of the encodings (core/encoding.go): what is read back from their bytes.
use xe.Prelude.{
  ℕ, ◌≡◌, refl, subst, arith, ◌∙◌, ap, String, Bool, true, false, List, Option, none, some, ok,
  ◌>>=◌, >>=-eq-ok, ok_injective, some_or, require, when_some, ◌==◌, str_eq, if◌then◌else◌, length,
}
use xe.Hex.{decode_hex}
use xe.Bytes.{zeros, all_zero, encode_hex, canonical_hex}
use xe.Encoding.{hex_32, hex_32_or}
use xe.Encoding.Decode.{hex_or}

-- The text that is read back: hex in lower case, and `unset` for zeros.
unfoldable pub canonical_or : String → String → String
canonical_or unset s =
    if str_eq s unset then unset else when_some (decode_hex s) "" (λ bytes. hex_or unset bytes)

pub some_or-eq-ok {ℓ} :
    {A : Type ℓ} (x : Option A) (e : String) {a : A} → some_or x e ≡ ok a → x ≡ some a
some_or-eq-ok none e h = cc
some_or-eq-ok (some x) e h = ap some (ok_injective h)

pub require-eq-ok : (b : Bool) (e : String) {u : Unit {0}} → require b e ≡ ok u → b ≡ true
require-eq-ok true e h = refl
require-eq-ok false e h = cc

hex_32-inverted :
    (s invalid wrong : String) {bytes : List ℕ}
    → hex_32 s invalid wrong ≡ ok bytes
    → (length bytes ≡ 32) × (decode_hex s ≡ some bytes)
unfolding hex_32
hex_32-inverted s invalid wrong h =
    let (read, decoded, after) =
      >>=-eq-ok (some_or (decode_hex s) invalid)
        (λ bytes. require (length bytes == 32) wrong >>= λ done. ok bytes) h in
    let (done, sized, result) =
      >>=-eq-ok (require (length read == 32) wrong) (λ done. ok read) after in
    let same = ok_injective result in
    let e = require-eq-ok (length read == 32) wrong sized in
    ((ground arith), some_or-eq-ok (decode_hex s) invalid decoded ∙ ap some same)

pub hex_32-eq-ok :
    (s invalid wrong : String) {bytes : List ℕ}
    → hex_32 s invalid wrong ≡ ok bytes
    → (length bytes ≡ 32) × (encode_hex bytes ≡ canonical_hex s)
unfolding canonical_hex
hex_32-eq-ok s invalid wrong h =
    let (size, decoded) = hex_32-inverted s invalid wrong h in (size, rw decoded)

pub hex_32_or-eq-ok :
    (unset s invalid wrong : String) {bytes : List ℕ}
    → hex_32_or unset s invalid wrong ≡ ok bytes
    → (length bytes ≡ 32) × (hex_or unset bytes ≡ canonical_or unset s)
unfolding hex_32_or canonical_or zeros all_zero
hex_32_or-eq-ok unset s invalid wrong {bytes} h =
    elim (str_eq s unset)
        as (λ b.
          (if b then ok (zeros 32) else hex_32 s invalid wrong) ≡ ok bytes
          → (length bytes ≡ 32)
            × (hex_or unset bytes
                ≡ (if b then unset else when_some (decode_hex s) "" (λ read. hex_or unset read)))) [
                  | true ↦ λ e.
                      subst (λ b. (length b ≡ 32) × (hex_or unset b ≡ unset)) (ok_injective e)
                        (refl, refl)
                  | false ↦ λ e.
                      let (size, decoded) = hex_32-inverted s invalid wrong e in (size, rw decoded)
                ]
      h
