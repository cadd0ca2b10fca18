-- ===== src/Attestation/Median.antt =====
-- Where an attested time comes from (core/attestation.go, ValidateAttestations).
use xe.Prelude.{
  ℕ, zero, suc, ◌-◌, ◌/◌, String, Bool, true, false, List, [], ◌∷◌, Option, none, some, ◌≡◌, refl,
  ◌⊎◌, inl, inr, Bool-cases, ok, some_or, fail_if, >>=-eq-ok, get_elem?, length, ok_injective, ◌&&◌,
  ap, ltb,
}
use xe.Prelude.Int.{ℤ, ltb_ℤ, pos}
use xe.Types.{TimekeeperAttestation}
use xe.Attestation.{
  is_zero, max_attestations_per_block, Judge, contains, counts, collect, insert_sorted, sort,
  median, validate_attestations, skew_ok,
}

abbrev IsAmong : ℤ → List ℤ → Type 0
IsAmong t [] = ⊥
IsAmong t (u ∷ rest) = (t ≡ u) ⊎ IsAmong t rest

-- An attestation of the list has this time; it is signed by a trusted key, and within the skew.
abbrev pub IsBacked : Judge → ℤ → List TimekeeperAttestation → Type 0
IsBacked j t [] = ⊥
IsBacked j t (a ∷ rest) =
    ((t ≡ a.timestamp)
      × (contains a.public_key j.trusted ≡ true)
      × (j.verify a ≡ true)
      × (skew_ok j a ≡ true))
    ⊎ IsBacked j t rest

element-IsAmong : (t : ℤ) (ts : List ℤ) (i : ℕ) → get_elem? ts i ≡ some t → IsAmong t ts
element-IsAmong t [] i h = cc
element-IsAmong t (u ∷ rest) zero h = inl (cc)
element-IsAmong t (u ∷ rest) (suc i) h = inr (element-IsAmong t rest i h)

insert_sorted-IsAmong :
    (t u : ℤ) (ts : List ℤ) → IsAmong t (insert_sorted u ts) → (t ≡ u) ⊎ IsAmong t ts
unfolding insert_sorted
insert_sorted-IsAmong t u [] h = h
insert_sorted-IsAmong t u (v ∷ rest) h = elim (Bool-cases (ltb_ℤ v u)) [
  | inr e ↦ rw e at h
  | inl e ↦ elim (rw e at h) [
    | inl same ↦ inr (inl same)
    | inr later ↦ elim (insert_sorted-IsAmong t u rest later) [
      | inl own ↦ inl own
      | inr old ↦ inr (inr old)
    ]
  ]
]

sort-IsAmong : (t : ℤ) (ts : List ℤ) → IsAmong t (sort ts) → IsAmong t ts
unfolding sort
sort-IsAmong t [] h = h
sort-IsAmong t (u ∷ rest) h = elim (insert_sorted-IsAmong t u (sort rest) h) [
  | inl own ↦ inl own
  | inr old ↦ inr (sort-IsAmong t rest old)
]

all_true : (p q r s : Bool) → (p && q && r && s) ≡ true → (p ≡ true) × (r ≡ true) × (s ≡ true)
all_true true true true true h = (refl, refl, refl)
all_true false q r s h = cc
all_true true false r s h = cc
all_true true true false s h = cc
all_true true true true false h = cc

collect-IsBacked :
    (j : Judge) (t : ℤ) (seen : List String) (atts : List TimekeeperAttestation)
    → IsAmong t (collect j seen atts)
    → IsBacked j t atts
unfolding collect counts
collect-IsBacked j t seen [] h = h
collect-IsBacked j t seen (a ∷ rest) h = elim (Bool-cases (counts j seen a)) [
  | inr e ↦ inr (collect-IsBacked j t seen rest (rw e at h))
  | inl e ↦ elim (rw e at h) [
    | inl own ↦
        (let (trusted, signed, timely) = all_true _ _ _ _ e in inl (own, trusted, signed, timely))
    | inr later ↦ inr (collect-IsBacked j t (a.public_key ∷ seen) rest later)
  ]
]

some_or_inv : (o : Option ℤ) (e : String) (t : ℤ) → some_or o e ≡ ok t → o ≡ some t
some_or_inv none e t h = cc
some_or_inv (some u) e t h = ap (λ x. some x) (ok_injective h)

-- A time that ValidateAttestations returns is the time of one of the attestations: of one that
-- verifies, by a trusted key, and within the skew where a skew is set.
pub validate_attestations-IsBacked :
    (j : Judge) (threshold : ℤ) (atts : List TimekeeperAttestation) (t : ℤ)
    → validate_attestations j threshold atts ≡ ok t
    → IsBacked j t atts
unfolding validate_attestations median
validate_attestations-IsBacked j threshold atts t h =
    let (u₁, e₁, h₁) = >>=-eq-ok (fail_if (is_zero threshold) _) _ h in
    let (u₂, e₂, h₂) = >>=-eq-ok (fail_if (ltb max_attestations_per_block (length atts)) _) _ h₁ in
    let (u₄, e₄, h₄) = >>=-eq-ok (fail_if (ltb_ℤ (pos (length atts)) threshold) _) _ h₂ in
    let (u₃, e₃, h₃) =
      >>=-eq-ok (fail_if (ltb_ℤ (pos (length (collect j [] atts))) threshold) _) _ h₄ in
    collect-IsBacked j t [] atts (
      sort-IsAmong t (collect j [] atts) (
        element-IsAmong t (sort (collect j [] atts)) ((length (collect j [] atts) - 1) / 2) (
          some_or_inv (get_elem? (sort (collect j [] atts)) ((length (collect j [] atts) - 1) / 2))
            _ t h₃)))
