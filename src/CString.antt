-- ===== src/CString.antt =====
-- The part of the C library's string handling that the sources rely on: strings that end at NUL,
-- strtok_r, strncpy, the character classes of the C locale, and decimal numbers.
pub mod Number
pub mod Decimal
pub mod Stream
pub mod Calls
pub mod Digits
use comp_p.Common.{
  ℕ, ◌-◌, ◌+◌, Bool, true, false, ◌&&◌, ◌||◌, List, [], ◌∷◌, Option, none, some, ltb, leb, ◌==◌,
  if◌then◌else◌, Bytes, take,
}

-- The C string that starts a buffer: the bytes before the first NUL.
unfoldable pub c_str : Bytes → Bytes
c_str [] = []
c_str (c ∷ s) = if c == 0 then [] else c ∷ c_str s

-- strncpy(dest, s, n) into a zeroed buffer of n + 1 bytes: at most n bytes of the string.
unfoldable pub strncpy : ℕ → Bytes → Bytes
unfolding c_str
strncpy n s = take n (c_str s)

unfoldable pub is_space : ℕ → Bool
is_space c = (leb 9 c && leb c 13) || (c == 32)

unfoldable pub is_digit : ℕ → Bool
is_digit c = leb b'0' c && leb c b'9'

unfoldable pub is_alnum : ℕ → Bool
unfolding is_digit
is_alnum c = is_digit c || ((leb b'A' c && leb c b'Z') || (leb b'a' c && leb c b'z'))

-- The delimiters " \t\r\n" of the request and login tokenisers, and " \t" of the reply display.
unfoldable pub is_delim : ℕ → Bool
is_delim c = c == 32 || (c == 9 || (c == 13 || c == 10))

unfoldable pub is_blank : ℕ → Bool
is_blank c = c == 32 || c == 9

module _ (delim : ℕ → Bool) where
  unfoldable pub skip_delims : Bytes → Bytes
  skip_delims [] = []
  skip_delims (c ∷ s) = if delim c then skip_delims s else c ∷ s

  -- The token at the front, and what follows the delimiter that ends it.
  unfoldable pub token_part : Bytes → Bytes × Bytes
  token_part [] = ([], [])
  token_part (c ∷ s) = if delim c then ([], s) else (let (t, r) = token_part s in (c ∷ t, r))

  -- strtok_r: the next token with the saved rest, or nothing.
  unfoldable pub strtok : Bytes → Option (Bytes × Bytes)
  unfolding skip_delims token_part
  strtok s = elim (skip_delims s) [ [] ↦ none | c ∷ r ↦ some (token_part (c ∷ r)) ]
