-- ===== src/Hex.antt =====
-- Go texts as bytes, and encoding/hex: DecodeString, as the source calls it.
use Prim.Native.Char.{code}
use xe.Prelude.{
  ℕ, ◌+◌, ◌-◌, ◌*◌, String, Option, none, some, List, [], ◌∷◌, ltb, leb, ◌&&◌, if◌then◌else◌,
}

-- `len(s)`: the bytes of the UTF-8 encoding of a text.
abbrev pub char_bytes : ℕ → ℕ
char_bytes c = if ltb c 0x80 then 1 else if ltb c 0x800 then 2 else if ltb c 0x10000 then 3 else 4

unfoldable pub byte_length : String → ℕ
byte_length String.[] = 0
byte_length (String.◌∷◌ c s) = char_bytes (code c) + byte_length s

abbrev pub hex_value : ℕ → Option ℕ
hex_value c =
    if leb b'0' c && leb c b'9'
    then some (c - b'0')
    else if leb b'a' c && leb c b'f'
    then some (c - b'a' + 10)
    else if leb b'A' c && leb c b'F'
    then some (c - b'A' + 10)
    else none

abbrev pub cons_byte : Option ℕ → Option ℕ → Option (List ℕ) → Option (List ℕ)
cons_byte (some h) (some l) (some rest) = some ((h * 16 + l) ∷ rest)
cons_byte _ _ _ = none

-- The bytes that a text of pairs of hex digits stands for; `none` is an error.
unfoldable pub decode_hex : String → Option (List ℕ)
decode_hex String.[] = some []
decode_hex (String.◌∷◌ c String.[]) = none
decode_hex (String.◌∷◌ c (String.◌∷◌ d t)) =
    cons_byte (hex_value (code c)) (hex_value (code d)) (decode_hex t)
