-- ===== src/Bytes/Laws.antt =====
-- Numbers are read back from their bytes, and slices of a concatenation are found in its parts.
use xe.Prelude.{
  ℕ, zero, suc, ◌+◌, ◌*◌, ◌/◌, ◌%◌, ◌^◌, ◌<◌, ◌≡◌, refl, ap, ◌∙◌, sym, List, [], ◌∷◌, ◌++◌, arith,
  length, length-append, append-nil, append_assoc, get_elem?, true,
}
use xe.Prelude.Int.{ℤ, bits_64, int_64, Int64}
use xe.Bytes.{be, le, be_value, le_value, take, drop, slice, byte_at, zeros, all_zero}

-- The number has no more than `k` bytes.
abbrev pub Fits : ℕ → ℕ → Type 0
Fits zero n = n ≡ 0
Fits (suc k) n = Fits k (n / 256)

pub length-be : (k n : ℕ) → length (be k n) ≡ k
unfolding be
length-be zero n = refl
length-be (suc k) n =
    omega (arith, length-append (be k (n / 256)) ((n % 256) ∷ []), length-be k (n / 256))

pub length-le : (k n : ℕ) → length (le k n) ≡ k
unfolding le
length-le zero n = refl
length-le (suc k) n = omega (arith, length-le k (n / 256))

be_value-append :
    (acc : ℕ) (xs : List ℕ) (b : ℕ) → be_value acc (xs ++ b ∷ []) ≡ be_value acc xs * 256 + b
unfolding be_value
be_value-append acc [] b = refl
be_value-append acc (x ∷ xs) b = be_value-append (acc * 256 + x) xs b

pub be_value-be : (k n : ℕ) → Fits k n → be_value 0 (be k n) ≡ n
unfolding be be_value
be_value-be zero n h = sym h
be_value-be (suc k) n h =
    rw (be_value-append 0 (be k (n / 256)) (n % 256), be_value-be k (n / 256) h) (omega arith)

pub le_value-le : (k n : ℕ) → Fits k n → le_value (le k n) ≡ n
unfolding le le_value
le_value-le zero n h = sym h
le_value-le (suc k) n h = rw (le_value-le k (n / 256) h) (omega arith)

pub bound-Fits : (n : ℕ) → n < 2 ^ 64 → Fits 8 n
bound-Fits n h = omega arith

-- A time is read back from its 64 bits.
pub bits_back : (t : ℤ) → Int64 t → int_64 (bits_64 t) ≡ t
bits_back t h = ground arith

pub bits_small : (t : ℤ) → bits_64 t < 2 ^ 64
bits_small t = ground arith

pub length-zeros : (n : ℕ) → length (zeros n) ≡ n
unfolding zeros
length-zeros zero = refl
length-zeros (suc n) = omega (arith, length-zeros n)

pub all_zero-zeros : (n : ℕ) → all_zero (zeros n) ≡ true
unfolding zeros all_zero
all_zero-zeros zero = refl
all_zero-zeros (suc n) = all_zero-zeros n

-- A slice past a first part is one of the second; a slice of the first part's length is that part.
pub slice-skip :
    (m off len : ℕ) (xs ys : List ℕ)
    → m ≡ length xs + off
    → slice m len (xs ++ ys) ≡ slice off len ys
unfolding slice drop
slice-skip m off len [] ys h = let e : m ≡ off = omega arith in rw e
slice-skip zero off len (x ∷ xs) ys h = absurd (omega arith)
slice-skip (suc m) off len (x ∷ xs) ys h = slice-skip m off len xs ys (omega arith)

pub slice-here : (n : ℕ) (xs ys : List ℕ) → length xs ≡ n → slice 0 n (xs ++ ys) ≡ xs
unfolding slice take drop
slice-here zero [] ys h = refl
slice-here zero (x ∷ xs) ys h = absurd (omega arith)
slice-here (suc n) [] ys h = absurd (omega arith)
slice-here (suc n) (x ∷ xs) ys h = λ i. x ∷ slice-here n xs ys (omega arith) i

-- A slice of a second part, and what is left after a first one.
pub under :
    (m off n : ℕ) (xs ys : List ℕ) {v : List ℕ}
    → m ≡ length xs + off
    → slice off n ys ≡ v
    → slice m n (xs ++ ys) ≡ v
under m off n xs ys e h = slice-skip m off n xs ys e ∙ h

pub drop-append :
    (m off : ℕ) (xs ys : List ℕ) → m ≡ length xs + off → drop m (xs ++ ys) ≡ drop off ys
unfolding drop
drop-append m off [] ys h = let e : m ≡ off = omega arith in rw e
drop-append zero off (x ∷ xs) ys h = absurd (omega arith)
drop-append (suc m) off (x ∷ xs) ys h = drop-append m off xs ys (omega arith)

-- The parts of a string of bytes, laid out one after another.
abbrev pub flat : List (List ℕ) → List ℕ → List ℕ
flat [] rest = rest
flat (x ∷ before) rest = x ++ flat before rest

abbrev pub total : List (List ℕ) → ℕ
total [] = 0
total (x ∷ before) = length x + total before

pub length-flat :
    (before : List (List ℕ)) (rest : List ℕ)
    → length (flat before rest) ≡ total before + length rest
length-flat [] rest = omega arith
length-flat (x ∷ before) rest =
    omega (arith, length-append x (flat before rest), length-flat before rest)

pub flat-append :
    (before : List (List ℕ)) (x y : List ℕ) → flat before x ++ y ≡ flat before (x ++ y)
flat-append [] x y = refl
flat-append (z ∷ before) x y =
    append_assoc z (flat before x) y ∙ ap (λ r. z ++ r) (flat-append before x y)

-- A part is found after the parts before it, and so is what is left.
pub drop-flat :
    (m : ℕ) (before : List (List ℕ)) (rest : List ℕ)
    → m ≡ total before
    → drop m (flat before rest) ≡ rest
unfolding drop
drop-flat m [] rest h = rw h
drop-flat m (x ∷ before) rest h =
    drop-append m (total before) x (flat before rest) h ∙ drop-flat (total before) before rest refl

pub slice-part :
    (m n : ℕ) (before : List (List ℕ)) (x after : List ℕ)
    → m ≡ total before
    → length x ≡ n
    → slice m n (flat before (x ++ after)) ≡ x
unfolding slice drop
slice-part m n before x after h size =
    rw (drop-flat m before (x ++ after) h) (slice-here n x after size)

pub slice-last :
    (m n : ℕ) (before : List (List ℕ)) (x : List ℕ)
    → m ≡ total before
    → length x ≡ n
    → slice m n (flat before x) ≡ x
slice-last m n before x h size =
    ap (λ y. slice m n (flat before y)) (sym (append-nil x)) ∙ slice-part m n before x [] h size

get_elem?-append :
    (m off : ℕ) (x ys : List ℕ) → m ≡ length x + off → get_elem? (x ++ ys) m ≡ get_elem? ys off
get_elem?-append m off [] ys h = let e : m ≡ off = omega arith in rw e
get_elem?-append zero off (b ∷ x) ys h = absurd (omega arith)
get_elem?-append (suc m) off (b ∷ x) ys h = get_elem?-append m off x ys (omega arith)

pub byte_at-part :
    (m : ℕ) (before : List (List ℕ)) (b : ℕ) (after : List ℕ)
    → m ≡ total before
    → byte_at m (flat before (b ∷ after)) ≡ b
byte_at-part m [] b after h = rw h
byte_at-part m (x ∷ before) b after h =
    rw (get_elem?-append m (total before) x (flat before (b ∷ after)) h)
      (byte_at-part (total before) before b after refl)
