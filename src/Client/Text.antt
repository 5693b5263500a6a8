-- ===== src/Client/Text.antt =====
-- How the client takes its input lines and the responses apart.
use comp_p.Common.{
  ℕ, zero, suc, ◌-◌, Bool, true, false, not, ◌&&◌, ◌||◌, [], ◌∷◌, Option, none, some, ◌==◌, leb,
  if◌then◌else◌, Bytes, codes, str_eq, length,
}
use comp_p.CString.{c_str, strncpy, strtok, is_delim, is_blank, is_space}
use comp_p.CString.Number.{ℤ, strtoll}
use comp_p.Auth.{is_empty}
use comp_p.Client.{max_input_len, max_response_len}

module _ (drops : ℕ → Bool) where
  -- The text without the longest end of such bytes.
  unfoldable pub drop_end : Bytes → Bytes
  drop_end [] = []
  drop_end (c ∷ s) = let rest = drop_end s in if is_empty rest && drops c then [] else c ∷ rest

  unfoldable pub drop_start : Bytes → Bytes
  drop_start [] = []
  drop_start (c ∷ s) = let rest = drop_start s in if drops c then rest else c ∷ s

  unfoldable pub take_start : Bytes → Bytes
  take_start [] = []
  take_start (c ∷ s) = let rest = take_start s in if drops c then c ∷ rest else []

unfoldable pub is_newline : ℕ → Bool
is_newline c = c == 10 || c == 13

unfoldable pub strip_newline : Bytes → Bytes
strip_newline s = drop_end is_newline s

unfoldable pub trim_whitespace : Bytes → Bytes
trim_whitespace s = drop_end is_space (drop_start is_space s)

-- The loop of first_token over a token of at most `room` bytes.
unfoldable pub token_within : ℕ → Bytes → Option Bytes
token_within room [] = some []
token_within room (c ∷ s) = elim (is_newline c || is_blank c) [
  | true ↦ some []
  | false ↦ elim room [
    | zero ↦ none
    | suc r ↦ elim (token_within r s) [ none ↦ none | some t ↦ some (c ∷ t) ]
  ]
]

unfoldable pub non_empty : Option Bytes → Option Bytes
non_empty none = none
non_empty (some []) = none
non_empty (some (c ∷ t)) = some (c ∷ t)

-- The first token, if there is one and the buffer of `token_len` bytes holds it.
unfoldable pub first_token : Bytes → ℕ → Option Bytes
first_token line token_len =
    non_empty (token_within (token_len - 1) (drop_start is_blank (c_str line)))

-- The three calls of strtok_r: the command, the name, and no more.
unfoldable pub name_of : Bytes → Option Bytes
name_of copy = elim (strtok is_delim copy) [
  | none ↦ none
  | some (tok, save) ↦ elim (strtok is_delim save) [
    | none ↦ none
    | some (name, save') ↦ elim (strtok is_delim save') [
      | some extra ↦ none
      | none ↦ if str_eq tok (codes "Login") then some name else none
    ]
  ]
]

-- The name goes to a buffer of `username_len` bytes.
unfoldable pub login_username : Bytes → ℕ → Option Bytes
login_username line username_len = elim (name_of (strncpy (max_input_len - 1) line)) [
  | none ↦ none
  | some name ↦ if leb username_len (length name) then none else some name
]

unfoldable pub starts_blank : Bytes → Bool
starts_blank [] = false
starts_blank (c ∷ s) = is_blank c

-- The value, if the function returns true. `end` is past the number and the blanks after it.
unfoldable pub parse_integer_reply : Bytes → Option ℤ
parse_integer_reply response =
    let r = strtoll (strip_newline (strncpy (max_response_len - 1) response)) in
    if not r.range_error
      && ((r.moved || starts_blank r.rest) && is_empty (drop_start is_blank r.rest))
    then some r.value
    else none
