-- ===== src/Map/Unique.antt =====
-- Each key stands once in a map, and the operations keep it so.
use xe.Prelude.{String, ◌≡◌, refl, [], ◌∷◌, none, arith, str_eq, eq_iff, Bool-cases, inl, inr}
use xe.Map.{Map, lookup, insert, delete, lookup-insert, lookup-delete}

module _ {ℓ} {V : Type ℓ} where
  abbrev pub IsUnique : Map V → Type ℓ
  IsUnique [] = Unit
  IsUnique ((k, v) ∷ m) = (lookup k m ≡ none) × IsUnique m

  pub insert-IsUnique : (k : String) (v : V) (m : Map V) → IsUnique m → IsUnique (insert k v m)
  unfolding insert
  insert-IsUnique k v [] u = (missing, tt)
    where
      missing : lookup {V = V} k [] ≡ none
      missing = unfold lookup in refl
  insert-IsUnique k v ((j, w) ∷ m) u = elim (Bool-cases (str_eq j k)) [
    | inl e ↦ rw e u
    | inr e ↦
        rw e
          (ground (arith, lookup-insert j k v m, eq_iff k j, eq_iff j k), insert-IsUnique k v m u.1)
  ]

  pub delete-IsUnique : (k : String) (m : Map V) → IsUnique m → IsUnique (delete k m)
  unfolding delete
  delete-IsUnique k [] u = tt
  delete-IsUnique k ((j, w) ∷ m) u = elim (Bool-cases (str_eq j k)) [
    | inl e ↦ rw e (delete-IsUnique k m u.1)
    | inr e ↦ rw e (ground (arith, lookup-delete j k m), delete-IsUnique k m u.1)
  ]
