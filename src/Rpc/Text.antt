-- ===== src/Rpc/Text.antt =====
-- Responses, tokens, and the numbers and names in a request.
use comp_p.Common.{
  ℕ, zero, suc, ◌-◌, ◌^◌, Bool, true, false, not, ◌&&◌, ◌||◌, List, [], ◌∷◌, ◌++◌, Option, none,
  some, ◌==◌, ltb, leb, if◌then◌else◌, Bytes,
}
use comp_p.CString.{c_str, strtok, is_delim}
use comp_p.CString.Number.{ℤ, pos, negsuc, strtoull, strtoll}
use comp_p.CString.Decimal.{show_ℕ, show_ℤ}
use comp_p.Auth.{is_empty}

abbrev pub newline : ℕ
newline = 10

abbrev pub rpc_fail : ℤ
rpc_fail = negsuc 0

abbrev pub rpc_value : ℤ
rpc_value = negsuc 1

abbrev pub rpc_internal : ℤ
rpc_internal = negsuc 2

unfoldable pub response_code : ℤ → Bytes
response_code code = show_ℤ code ++ (newline ∷ [])

unfoldable pub response_u64 : ℕ → Bytes
response_u64 value = (b'0' ∷ b' ' ∷ show_ℕ value) ++ (newline ∷ [])

unfoldable pub response_i32 : ℤ → Bytes
response_i32 value = show_ℤ value ++ (newline ∷ [])

unfoldable pub response_generate : ℤ → ℤ → Bytes
response_generate dat movie = (b'0' ∷ b' ' ∷ show_ℤ dat ++ (b' ' ∷ show_ℤ movie)) ++ (newline ∷ [])

-- At most n more tokens; `none` if there are more.
unfoldable pub tokens_upto : ℕ → Bytes → Option (List Bytes)
tokens_upto zero s = elim (strtok is_delim s) [ none ↦ some [] | some found ↦ none ]
tokens_upto (suc n) s = elim (strtok is_delim s) [
  | none ↦ some []
  | some (token, save) ↦ elim (tokens_upto n save) [
    | none ↦ none
    | some tokens ↦ some (token ∷ tokens)
  ]
]

abbrev pub max_tokens : ℕ
max_tokens = 16

unfoldable pub tokenize : Bytes → Option (List Bytes)
tokenize line = tokens_upto max_tokens (c_str line)

unfoldable pub starts_with_minus : Bytes → Bool
starts_with_minus [] = false
starts_with_minus (c ∷ s) = c == b'-'

unfoldable pub parse_u64 : Bytes → Option ℕ
parse_u64 s =
    let r = strtoull s in
    if starts_with_minus s
    then none
    else if r.range_error || (not r.moved || not (is_empty r.rest))
    then none
    else some r.value

unfoldable pub at_most : ℕ → Option ℕ → Option ℕ
at_most bound none = none
at_most bound (some n) = if ltb bound n then none else some n

-- SIZE_MAX is 2^64 - 1.
unfoldable pub parse_size : Bytes → Option ℕ
parse_size s = at_most (2 ^ 64 - 1) (parse_u64 s)

unfoldable pub in_ssize : ℤ → Bool
in_ssize (pos n) = leb n (2 ^ 63 - 1)
in_ssize (negsuc n) = leb n (2 ^ 63 - 1)

unfoldable pub parse_ssize : Bytes → Option ℤ
parse_ssize s =
    let r = strtoll s in
    if r.range_error || (not r.moved || (not (is_empty r.rest) || not (in_ssize r.value)))
    then none
    else some r.value

unfoldable pub parse_color : Bytes → Option ℕ
parse_color s = at_most (2 ^ 32 - 1) (parse_u64 s)

unfoldable pub bool_of : Option ℕ → Option Bool
bool_of none = none
bool_of (some n) = some (not (n == 0))

unfoldable pub parse_bool_token : Bytes → Option Bool
parse_bool_token s = bool_of (at_most 1 (parse_u64 s))

-- The bytes / \ ; & | < > ` $.
unfoldable pub is_unsafe : ℕ → Bool
is_unsafe c =
    c == 47
    || (c == 92
        || (c == 59 || (c == 38 || (c == 124 || (c == 60 || (c == 62 || (c == 96 || c == 36)))))))

unfoldable pub all_safe : Bytes → Bool
all_safe [] = true
all_safe (c ∷ s) = not (is_unsafe c) && all_safe s

unfoldable pub valid_filename_base : Bytes → Bool
valid_filename_base s = not (is_empty s) && all_safe s

unfoldable pub with_suffix : Bytes → Bytes → Bytes
with_suffix base suffix = base ++ suffix
