-- ===== src/Memo.antt =====
-- The check of a memo (core/memo.go), over its bytes; `utf8.ValidString` is spelled out as the
-- automaton over the lead and continuation bytes that the Go documentation fixes.
use xe.Prelude.{
  ℕ, zero, suc, Bool, true, false, not, ◌&&◌, ◌||◌, List, [], ◌∷◌, Result, ok, ◌>>◌, fail_if,
  require, length, ltb, leb, ◌==◌, if◌then◌else◌,
}

abbrev pub max_memo_bytes : ℕ
max_memo_bytes = 64

abbrev between : ℕ → ℕ → ℕ → Bool
between lo hi c = leb lo c && leb c hi

-- What a lead byte asks for: how many bytes follow, and the range of the first of them.
pub data Lead : Type 0 where
  invalid : Lead
  follow : ℕ → ℕ → ℕ → Lead

unfoldable pub lead : ℕ → Lead
lead c =
    if ltb c 0x80
    then follow 0 0x80 0xbf
    else if between 0xc2 0xdf c
    then follow 1 0x80 0xbf
    else if c == 0xe0
    then follow 2 0xa0 0xbf
    else if c == 0xed
    then follow 2 0x80 0x9f
    else if between 0xe1 0xef c
    then follow 2 0x80 0xbf
    else if c == 0xf0
    then follow 3 0x90 0xbf
    else if between 0xf1 0xf3 c
    then follow 3 0x80 0xbf
    else if c == 0xf4
    then follow 3 0x80 0x8f
    else invalid

-- The rest of a text, where `n` continuation bytes are due, the next of them in `lo` to `hi`.
unfoldable pub valid_from : ℕ → ℕ → ℕ → List ℕ → Bool
valid_from zero lo hi [] = true
valid_from (suc n) lo hi [] = false
valid_from zero lo hi (c ∷ rest) = elim (lead c) [
  | invalid ↦ false
  | follow n lo' hi' ↦ valid_from n lo' hi' rest
]
valid_from (suc n) lo hi (c ∷ rest) = between lo hi c && valid_from n 0x80 0xbf rest

unfoldable pub valid_utf8 : List ℕ → Bool
unfolding valid_from lead
valid_utf8 s = valid_from 0 0x80 0xbf s

unfoldable pub is_disallowed : ℕ → Bool
is_disallowed c = not (c == 0x09 || c == 0x0a) && (ltb c 0x20 || c == 0x7f)

unfoldable pub has_disallowed : List ℕ → Bool
unfolding is_disallowed
has_disallowed [] = false
has_disallowed (c ∷ rest) = is_disallowed c || has_disallowed rest

unfoldable pub validate_memo : List ℕ → Result (Unit {0})
unfolding valid_utf8 has_disallowed
validate_memo [] = ok tt
validate_memo (c ∷ rest) = do
  fail_if (ltb max_memo_bytes (length (c ∷ rest))) "memo too long: %d bytes (max %d)"
  require (valid_utf8 (c ∷ rest)) "memo is not valid UTF-8"
  fail_if (has_disallowed (c ∷ rest)) "memo contains disallowed control byte 0x%02x at offset %d"
