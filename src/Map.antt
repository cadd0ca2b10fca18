-- ===== src/Map.antt =====
-- Go's `map[string]V`, as an association list that holds each key once.
pub mod Sum
pub mod Unique
use xe.Prelude.{
  String, ◌≡◌, refl, List, [], ◌∷◌, Option, none, some, arith, str_eq, eq_iff, if◌then◌else◌,
  eq_refl, ap, false, Bool-cases, inl, inr,
}

abbrev pub Map {ℓ} : Type ℓ → Type ℓ
Map V = List (String × V)

module _ {ℓ} {V : Type ℓ} where
  -- `m[k]`, with the missing key told apart.
  unfoldable pub lookup : String → Map V → Option V
  lookup k [] = none
  lookup k ((j, v) ∷ m) = if str_eq j k then some v else lookup k m

  -- `m[k] = v`
  unfoldable pub insert : String → V → Map V → Map V
  insert k v [] = (k, v) ∷ []
  insert k v ((j, w) ∷ m) = if str_eq j k then (j, v) ∷ m else (j, w) ∷ insert k v m

  -- `delete(m, k)`
  unfoldable pub delete : String → Map V → Map V
  delete k [] = []
  delete k ((j, w) ∷ m) = if str_eq j k then delete k m else (j, w) ∷ delete k m

  pub lookup-insert :
      (j k : String) (v : V) (m : Map V)
      → lookup j (insert k v m) ≡ (if str_eq k j then some v else lookup j m)
  unfolding lookup insert
  lookup-insert j k v [] = refl
  lookup-insert j k v ((i, w) ∷ m) =
      ground (arith, eq_iff k j, eq_iff i k, eq_iff i j, lookup-insert j k v m)

  pub lookup-delete :
      (j k : String) (m : Map V) → lookup j (delete k m) ≡ (if str_eq k j then none else lookup j m)
  unfolding lookup delete
  lookup-delete j k [] = ground (arith, eq_iff k j)
  lookup-delete j k ((i, w) ∷ m) =
      ground (arith, eq_iff k j, eq_iff i k, eq_iff i j, lookup-delete j k m)

  pub lookup-insert_self : (k : String) (v : V) (m : Map V) → lookup k (insert k v m) ≡ some v
  lookup-insert_self k v m = simp (lookup-insert, eq_refl)

  pub lookup-delete_self : (k : String) (m : Map V) → lookup k (delete k m) ≡ none
  lookup-delete_self k m = simp (lookup-delete, eq_refl)

  pub lookup-insert_ne :
      (j k : String) (v : V) (m : Map V) → str_eq k j ≡ false → lookup j (insert k v m) ≡ lookup j m
  lookup-insert_ne j k v m h = rw (lookup-insert j k v m, h)

  pub lookup-delete_ne :
      (j k : String) (m : Map V) → str_eq k j ≡ false → lookup j (delete k m) ≡ lookup j m
  lookup-delete_ne j k m h = rw (lookup-delete j k m, h)

  pub delete_missing : (k : String) (m : Map V) → lookup k m ≡ none → delete k m ≡ m
  unfolding lookup delete
  delete_missing k [] h = refl
  delete_missing k ((j, w) ∷ m) h = elim (Bool-cases (str_eq j k)) [
    | inl e ↦ cc (rw e at h)
    | inr e ↦ rw e (λ i. (j, w) ∷ delete_missing k m (rw e at h) i)
  ]

  -- Deleting a key that has just been added.
  pub delete-insert :
      (k : String) (v : V) (m : Map V) → lookup k m ≡ none → delete k (insert k v m) ≡ m
  unfolding lookup insert delete
  delete-insert k v [] h = rw (eq_refl k)
  delete-insert k v ((j, w) ∷ m) h = elim (Bool-cases (str_eq j k)) [
    | inl e ↦ cc (rw e at h)
    | inr e ↦ rw e (rw e (ap (λ x. (j, w) ∷ x) (delete-insert k v m (rw e at h))))
  ]
