-- ===== src/Bytes.antt =====
-- The byte strings that the encodings use: Go's encoding/binary and encoding/hex (EncodeToString), the bytes of a text, slices,
-- and `sort.Strings`.
pub mod Laws
use Prim.Native.Char.{Char, code}
use Prim.Native.String.{char_at, compare}
use text.Mathlib.Text.{is_lt}
use xe.Prelude.{
  ℕ, zero, suc, ◌+◌, ◌-◌, ◌*◌, ◌/◌, ◌%◌, String, Bool, true, false, ◌&&◌, List, [], ◌∷◌, ◌++◌,
  Option, none, some, ltb, leb, ◌==◌, if◌then◌else◌, get_elem?, when_some,
}
use xe.Hex.{decode_hex}

-- `PutUint64` and its kin: the low `k` bytes of a number, the highest first; and the lowest first.
unfoldable pub be : ℕ → ℕ → List ℕ
be zero n = []
be (suc k) n = be k (n / 256) ++ (n % 256) ∷ []

unfoldable pub le : ℕ → ℕ → List ℕ
le zero n = []
le (suc k) n = (n % 256) ∷ le k (n / 256)

-- `Uint64` and its kin.
unfoldable pub be_value : ℕ → List ℕ → ℕ
be_value acc [] = acc
be_value acc (b ∷ rest) = be_value (acc * 256 + b) rest

unfoldable pub le_value : List ℕ → ℕ
le_value [] = 0
le_value (b ∷ rest) = b + 256 * le_value rest

module _ {ℓ} {A : Type ℓ} where
  unfoldable pub take : ℕ → List A → List A
  take zero xs = []
  take (suc n) [] = []
  take (suc n) (x ∷ xs) = x ∷ take n xs

  unfoldable pub drop : ℕ → List A → List A
  drop zero xs = xs
  drop (suc n) [] = []
  drop (suc n) (x ∷ xs) = drop n xs

-- `data[off : off+n]`, where the length has been checked.
unfoldable pub slice : ℕ → ℕ → List ℕ → List ℕ
slice off n bytes = take n (drop off bytes)

-- `data[i]`, where the length has been checked.
abbrev pub byte_at : ℕ → List ℕ → ℕ
byte_at i bytes = when_some (get_elem? bytes i) 0 (λ b. b)

unfoldable pub zeros : ℕ → List ℕ
zeros zero = []
zeros (suc n) = 0 ∷ zeros n

unfoldable pub all_zero : List ℕ → Bool
all_zero [] = true
all_zero (b ∷ rest) = (b == 0) && all_zero rest

-- `[]byte(s)`: the UTF-8 of a text.
abbrev utf8_char : ℕ → List ℕ
utf8_char c =
    if ltb c 0x80
    then c ∷ []
    else if ltb c 0x800
    then (0xc0 + c / 64) ∷ (0x80 + c % 64) ∷ []
    else if ltb c 0x10000
    then (0xe0 + c / 4096) ∷ (0x80 + c / 64 % 64) ∷ (0x80 + c % 64) ∷ []
    else (0xf0 + c / 262144) ∷ (0x80 + c / 4096 % 64) ∷ (0x80 + c / 64 % 64) ∷ (0x80 + c % 64) ∷ []

unfoldable pub text_bytes : String → List ℕ
text_bytes String.[] = []
text_bytes (String.◌∷◌ c s) = utf8_char (code c) ++ text_bytes s

-- `string(bytes)` on printable ASCII; another byte gives U+0000.
abbrev ascii_char : ℕ → Char
ascii_char b =
    char_at
      " !\"#$%&'()*+,-./0123456789:;<=>?@ABCDEFGHIJKLMNOPQRSTUVWXYZ[\\]^_`abcdefghijklmnopqrstuvwxyz{|}~"
      (if ltb b 32 then 95 else b - 32)

unfoldable pub ascii_text : List ℕ → String
ascii_text [] = String.[]
ascii_text (b ∷ rest) = String.◌∷◌ (ascii_char b) (ascii_text rest)

-- `bytes.TrimRight(b, "\x00")`
unfoldable pub trim_zeros : List ℕ → List ℕ
trim_zeros [] = []
trim_zeros (b ∷ rest) = if all_zero (b ∷ rest) then [] else b ∷ trim_zeros rest

-- `hex.EncodeToString`
abbrev hex_char : ℕ → Char
hex_char d = char_at "0123456789abcdef" d

unfoldable pub encode_hex : List ℕ → String
encode_hex [] = String.[]
encode_hex (b ∷ rest) =
    String.◌∷◌ (hex_char (b / 16)) (String.◌∷◌ (hex_char (b % 16)) (encode_hex rest))

-- The lower-case text of the same bytes.
unfoldable pub canonical_hex : String → String
canonical_hex s = when_some (decode_hex s) "" encode_hex

-- `sort.Strings`
abbrev insert_text : String → List String → List String
insert_text s [] = s ∷ []
insert_text s (t ∷ rest) = if is_lt (compare t s) then t ∷ insert_text s rest else s ∷ t ∷ rest

unfoldable pub sort_texts : List String → List String
sort_texts [] = []
sort_texts (s ∷ rest) = insert_text s (sort_texts rest)
