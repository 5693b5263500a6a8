-- ===== src/Auth/Saved.antt =====
-- auth.c: a file of lines that are entries or remarks, and what is found in it.
use comp_p.Common.{
  ℕ, ◌^◌, ◌<◌, ◌≤◌, ◌≡◌, ◌≢◌, true, false, List, [], ◌∷◌, ◌++◌, Option, none, some, if◌then◌else◌,
  Bytes, All, length, str_eq,
}
use comp_p.CString.{is_alnum, is_delim}
use comp_p.CString.Number.{ℤ, pos, negsuc}
use comp_p.CString.Decimal.{show_ℤ}
use comp_p.Auth.Lookup.{or_else}

-- A line of the file: a user's name and balance, or a remark that starts with that byte.
pub data FileLine : Type 0 where
  entry : Bytes → ℤ → FileLine
  remark : ℕ → Bytes → FileLine

unfoldable pub text_of : FileLine → Bytes
text_of (entry name balance) = name ++ (32 ∷ show_ℤ balance)
text_of (remark c text) = c ∷ text

unfoldable pub file_of : List FileLine → Bytes
unfolding text_of
file_of [] = []
file_of (l ∷ ls) = text_of l ++ (10 ∷ file_of ls)

abbrev pub IsInt32 : ℤ → Type 0
IsInt32 (pos n) = n < 2 ^ 31
IsInt32 (negsuc n) = n < 2 ^ 31

-- A name has 1 to 32 letters and digits, and a balance has 32 bits. A remark starts with a byte
-- that is neither a letter or digit nor white space, and fits in the buffer.
abbrev pub IsFileLine : FileLine → Type 0
IsFileLine (entry name balance) =
    ((0 < length name) × (length name ≤ 32) × All (λ c. is_alnum c ≡ true) name) × IsInt32 balance
IsFileLine (remark c text) =
    (c ≢ 0)
    × (is_alnum c ≡ false)
    × (is_delim c ≡ false)
    × All (λ d. d ≢ 10) text
    × (length text < 510)

-- The balance in the last entry for a name.
unfoldable pub balance_in : Bytes → List FileLine → Option ℤ
balance_in name [] = none
balance_in name (entry n z ∷ ls) =
    or_else (balance_in name ls) (if str_eq n name then some z else none)
balance_in name (remark c text ∷ ls) = balance_in name ls

-- The lines that fgets delivers.
unfoldable pub delivered : List FileLine → List Bytes
delivered [] = []
delivered (l ∷ ls) = (text_of l ++ (10 ∷ [])) ∷ delivered ls
