-- ===== src/Map/Sum.antt =====
-- Sums over the values of a map.
use xe.Prelude.{ℕ, ◌+◌, String, ◌≡◌, [], ◌∷◌, Option, none, some, arith, eq_iff}
use xe.Map.{Map, lookup, insert, delete}
use xe.Map.Unique.{IsUnique}

module _ {ℓ} {V : Type ℓ} (f : V → ℕ) where
  pub sum : Map V → ℕ
  sum [] = 0
  sum ((k, v) ∷ m) = f v + sum m

  abbrev pub weight : Option V → ℕ
  weight none = 0
  weight (some v) = f v

  -- A write replaces the weight of the old value by that of the new one.
  pub sum-insert :
      (k : String) (v : V) (m : Map V) → sum (insert k v m) + weight (lookup k m) ≡ sum m + f v
  unfolding sum lookup insert
  sum-insert k v [] = omega arith
  sum-insert k v ((j, w) ∷ m) = ground (arith, sum-insert k v m)

  delete_missing : (k : String) (m : Map V) → lookup k m ≡ none → sum (delete k m) ≡ sum m
  unfolding sum lookup delete
  delete_missing k [] h = omega arith
  delete_missing k ((j, w) ∷ m) h = ground (arith, delete_missing k m)

  -- A deletion takes away the weight of the value that was there.
  pub sum-delete :
      (k : String) (m : Map V) → IsUnique m → sum (delete k m) + weight (lookup k m) ≡ sum m
  unfolding sum lookup delete
  sum-delete k [] u = omega arith
  sum-delete k ((j, w) ∷ m) u = ground (arith, sum-delete k m u.1, delete_missing k m, eq_iff j k)
