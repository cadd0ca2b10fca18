-- ===== src/Multisig/Panic/Calm.antt =====
-- The errors that the check of one signature returns (core/crypto.go) are no panic, and a key that
-- decodes is no short text.
use Prim.Native.Char.{code}
use xe.Prelude.{
  ℕ, suc, String, ◌≡◌, ◌≤◌, ◌*◌, refl, sym, ap, arith, Bool, true, false, List, Option, none, some,
  some-injective, Result, ok, err, ◌>>=◌, >>=-eq-ok, length, fail_if, require, some_or, ltb, ◌==◌,
}
use xe.Encoding.Texts.{some_or-eq-ok, require-eq-ok}
use xe.Hex.{byte_length, decode_hex, char_bytes, cons_byte}
use xe.Multisig.{
  Verifier, verify_hex_signature, decode_public_key, decode_signature, decode_hash, slice_panic,
}

cons_byte_inv :
    (h l : Option ℕ) (rest : Option (List ℕ)) {bytes : List ℕ}
    → cons_byte h l rest ≡ some bytes
    → (tail : List ℕ) × (rest ≡ some tail) × (length bytes ≡ suc (length tail))
cons_byte_inv (some h) (some l) (some tail) e = (tail, refl, ap length (sym (some-injective _ _ e)))
cons_byte_inv (some h) (some l) none e = cc
cons_byte_inv (some h) none rest e = cc
cons_byte_inv none l rest e = cc

one_byte : (c : ℕ) → 1 ≤ char_bytes c
one_byte c = ground arith

-- Two bytes of text at least for each byte that it decodes to.
length-decode_hex :
    (s : String) {bytes : List ℕ} → decode_hex s ≡ some bytes → 2 * length bytes ≤ byte_length s
unfolding decode_hex byte_length
length-decode_hex String.[] {bytes} h =
    let none_left : length bytes ≡ 0 = ap length (sym (some-injective _ _ h)) in omega arith
length-decode_hex (String.◌∷◌ c String.[]) h = cc
length-decode_hex (String.◌∷◌ c (String.◌∷◌ d t)) {bytes} h =
    let (tail, decoded, longer) = cons_byte_inv _ _ _ h in
    let ih = length-decode_hex t decoded in
    let first = one_byte (code c) in let second = one_byte (code d) in omega arith

-- A key that decodes is written in 64 bytes at least.
length-decode_public_key :
    (pk : String) {key : List ℕ} → decode_public_key pk ≡ ok key → 64 ≤ byte_length pk
unfolding decode_public_key
length-decode_public_key pk h =
    let (bytes, decoded, h₁) = >>=-eq-ok (some_or (decode_hex pk) _) _ h in
    let (u, sized, h₂) = >>=-eq-ok (require (length bytes == 32) _) _ h₁ in
    let size : length bytes == 32 ≡ true = require-eq-ok _ _ sized in
    let long = length-decode_hex pk (some_or-eq-ok _ _ decoded) in ground arith

-- The result is no panic.
abbrev pub CannotPanic {ℓ} : {V : Type ℓ} → Result V → Type ℓ
CannotPanic r = ¬ (r ≡ err slice_panic)

pub error_text {ℓ} : {V : Type ℓ} {e e' : String} → Path (Result V) (err e) (err e') → e ≡ e'
error_text {e = e} h = ap (λ r. elim r [ ok a ↦ e | err t ↦ t ]) h

module _ {e : String} (other : ¬ (e ≡ slice_panic)) where
  require-CannotPanic : (t : Bool) → CannotPanic (require t e)
  require-CannotPanic true h = cc
  require-CannotPanic false h = other (error_text h)

  pub fail_if-CannotPanic : (t : Bool) → CannotPanic (fail_if t e)
  fail_if-CannotPanic true h = other (error_text h)
  fail_if-CannotPanic false h = cc

  some_or-CannotPanic {ℓ} : {A : Type ℓ} (o : Option A) → CannotPanic (some_or o e)
  some_or-CannotPanic none h = other (error_text h)
  some_or-CannotPanic (some a) h = cc

>>=-CannotPanic {ℓ κ} :
    {V : Type ℓ} {W : Type κ} (first : Result V) (go_on : V → Result W)
    → CannotPanic first
    → ((v : V) → CannotPanic (go_on v))
    → CannotPanic (first >>= go_on)
>>=-CannotPanic (err e) go_on now later h = now (ap err (error_text h))
>>=-CannotPanic (ok v) go_on now later h = later v h

decode_public_key-CannotPanic : (pk : String) → CannotPanic (decode_public_key pk)
unfolding decode_public_key
decode_public_key-CannotPanic pk =
    >>=-CannotPanic _ _ (some_or-CannotPanic (λ h. cc) (decode_hex pk))
      (λ b. >>=-CannotPanic _ _ (require-CannotPanic (λ h. cc) (length b == 32)) (λ u h. cc))

decode_signature-CannotPanic : (sig : String) → CannotPanic (decode_signature sig)
unfolding decode_signature
decode_signature-CannotPanic sig =
    >>=-CannotPanic _ _ (some_or-CannotPanic (λ h. cc) (decode_hex sig))
      (λ b. >>=-CannotPanic _ _ (require-CannotPanic (λ h. cc) (length b == 64)) (λ u h. cc))

pub decode_hash-CannotPanic : (hash : String) → CannotPanic (decode_hash hash)
unfolding decode_hash
decode_hash-CannotPanic hash =
    >>=-CannotPanic _ _ (some_or-CannotPanic (λ h. cc) (decode_hex hash))
      (λ b. >>=-CannotPanic _ _ (require-CannotPanic (λ h. cc) (length b == 32)) (λ u h. cc))

module _ (verify : Verifier) where
  verified_length :
      (pk sig : String) (message : List ℕ) {u : Unit {0}}
      → verify_hex_signature verify pk sig message ≡ ok u
      → 64 ≤ byte_length pk
  unfolding verify_hex_signature
  verified_length pk sig message h =
      length-decode_public_key pk (>>=-eq-ok (decode_public_key pk) _ h).1

  pub verify_hex_signature-CannotPanic :
      (pk sig : String) (message : List ℕ)
      → CannotPanic (verify_hex_signature verify pk sig message)
  unfolding verify_hex_signature
  verify_hex_signature-CannotPanic pk sig message =
      >>=-CannotPanic _ _ (decode_public_key-CannotPanic pk) (λ key.
        >>=-CannotPanic _ _ (decode_signature-CannotPanic sig)
          (λ b. require-CannotPanic (λ h. cc) (verify key message b)))

  pub short_unsigned :
      (pk sig : String) (message : List ℕ)
      → ltb (byte_length pk) 12 ≡ true
      → ¬ (verify_hex_signature verify pk sig message ≡ ok tt)
  short_unsigned pk sig message short h =
      let long = verified_length pk sig message h in ground arith
