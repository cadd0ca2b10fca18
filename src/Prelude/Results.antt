-- ===== src/Prelude/Results.antt =====
-- Go's `(value, error)` returns: a value, or the error that the call stopped with. An error is
-- the literal format string of the source, without the values that are printed into it.
use Prim.Native.String.{String}
use mathlib.Core.Path.{◌≡◌, refl, ap}
use mathlib.Core.Bool.{Bool, true, false}
use mathlib.Core.Option.{Option, none, some}

pub data Result {ℓ} (V : Type ℓ) : Type ℓ where
  err : String → Result V
  ok : V → Result V

-- `v, err := r; if err != nil { return err }`, with `go_on` what follows.
infixl 5 ◌>>=◌
abbrev pub ◌>>=◌ {ℓ κ} : {V : Type ℓ} {W : Type κ} → Result V → (V → Result W) → Result W
err why >>= go_on = err why
ok v >>= go_on = go_on v

-- The same where the call returns an error only.
infixl 5 ◌>>◌
abbrev pub ◌>>◌ {ℓ} : {W : Type ℓ} → Result (Unit {0}) → Result W → Result W
call >> after = call >>= λ done. after

-- `if !cond { return fmt.Errorf(e) }`
abbrev pub require : Bool → String → Result (Unit {0})
require true e = ok tt
require false e = err e

-- `if cond { return fmt.Errorf(e) }`
abbrev pub fail_if : Bool → String → Result (Unit {0})
fail_if true e = err e
fail_if false e = ok tt

-- `if x == nil { return fmt.Errorf(e) }`
abbrev pub some_or {ℓ} : {A : Type ℓ} → Option A → String → Result A
some_or none e = err e
some_or (some a) e = ok a

-- If a chain of calls succeeds, then its first call has returned a value, and the rest succeeds on it.
module _ {ℓ κ} {V : Type ℓ} {W : Type κ} where
  pub >>=-eq-ok :
      (first : Result V) (go_on : V → Result W) {w : W}
      → (first >>= go_on) ≡ ok w
      → (v : V) × (first ≡ ok v) × (go_on v ≡ ok w)
  >>=-eq-ok (err why) go_on success = cc
  >>=-eq-ok (ok v) go_on success = (v, refl, success)

-- `if x != nil { … }`: the value `d` where there is none.
abbrev pub when_some {ℓ κ} : {A : Type ℓ} {B : Type κ} → Option A → B → (A → B) → B
when_some none d f = d
when_some (some a) d f = f a

pub ok_injective {ℓ} : {A : Type ℓ} {a b : A} → ok a ≡ ok b → a ≡ b
ok_injective {b = b} h = ap (λ r. elim r [ ok a ↦ a | err e ↦ b ]) h
