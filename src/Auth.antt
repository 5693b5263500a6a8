-- ===== src/Auth.antt =====
-- auth.c: the user database that the server loads at its start.
pub mod Load
pub mod Lookup
pub mod Saved
pub mod Tests
use comp_p.Common.{
  ℕ, zero, suc, ◌+◌, ◌^◌, ◌-◌, ◌≤◌, Bool, true, false, not, ◌&&◌, ◌||◌, List, [], ◌∷◌, Option, none,
  some, ltb, leb, ◌==◌, if◌then◌else◌, Bytes, str_eq, length,
}
use comp_p.CString.{c_str, strncpy, is_alnum, is_delim, strtok}
use comp_p.CString.Number.{ℤ, pos, negsuc, strtoll}
use comp_p.CString.Stream.{fgets}

abbrev pub auth_username_max : ℕ
auth_username_max = 32

abbrev pub int32_max : ℕ
int32_max = 2 ^ 31 - 1

-- The size of the line buffer of auth_load.
abbrev pub line_size : ℕ
line_size = 512

-- The list of an auth_db starts with the entry read last.
pub record AuthUser : Type 0 where
  pub username : Bytes
  pub balance : ℤ

pub record AuthDb : Type 0 where
  pub users : List AuthUser

unfoldable pub all_alnum : Bytes → Bool
unfolding is_alnum
all_alnum [] = true
all_alnum (c ∷ s) = is_alnum c && all_alnum s

-- `none` is the null pointer.
unfoldable pub auth_valid_username : Option Bytes → Bool
unfolding all_alnum
auth_valid_username none = false
auth_valid_username (some name) =
    if length name == 0 || ltb auth_username_max (length name) then false else all_alnum name

unfoldable pub in_int32 : ℤ → Bool
in_int32 (pos n) = leb n int32_max
in_int32 (negsuc n) = leb n int32_max

unfoldable pub is_empty : Bytes → Bool
is_empty [] = true
is_empty (c ∷ s) = false

unfoldable pub parse_balance : Bytes → Option ℤ
unfolding strtoll is_empty in_int32
parse_balance s =
    let r = strtoll s in
    if r.range_error || (not r.moved || (not (is_empty r.rest) || not (in_int32 r.value)))
    then none
    else some r.value

-- The two calls of strtok_r in the loop of auth_load.
unfoldable pub two_tokens : Bytes → Option (Bytes × Bytes)
unfolding c_str strtok is_delim
two_tokens line = elim (strtok is_delim (c_str line)) [
  | none ↦ none
  | some (username, save) ↦ elim (strtok is_delim save) [
    | none ↦ none
    | some (balance_s, save') ↦ some (username, balance_s)
  ]
]

make_user : Bytes → Option ℤ → Option AuthUser
make_user username none = none
make_user username (some balance) =
    some (record { username = strncpy auth_username_max username; balance = balance })

-- The user that a line of the file adds; `none` where the loop continues with the next line.
unfoldable pub load_line : Bytes → Option AuthUser
unfolding two_tokens auth_valid_username parse_balance make_user
load_line line = elim (two_tokens line) [
  | none ↦ none
  | some (username, balance_s) ↦
      if auth_valid_username (some username)
      then make_user username (parse_balance balance_s)
      else none
]

-- The loop of auth_load. `calloc_ok k` says whether allocation k succeeds; `none` is a null result.
module _ (calloc_ok : ℕ → Bool) where
  unfoldable pub load_loop : ℕ → ℕ → Bytes → List AuthUser → Option AuthDb
  unfolding load_line fgets
  load_loop zero k file users = some (record { users = users })
  load_loop (suc fuel) k file users = elim (fgets line_size file) [
    | none ↦ some (record { users = users })
    | some (line, rest) ↦ elim (load_line line) [
      | none ↦ load_loop fuel k rest users
      | some user ↦ elim (calloc_ok k) [
        | true ↦ load_loop fuel (suc k) rest (user ∷ users)
        | false ↦ none
      ]
    ]
  ]

  -- The file is `none` if fopen fails. Each round reads a byte at least.
  unfoldable pub auth_load : Option Bytes → Option AuthDb
  unfolding load_loop
  auth_load file = elim (calloc_ok 0) [
    | false ↦ none
    | true ↦ elim file [
      | none ↦ some (record { users = [] })
      | some content ↦ load_loop (suc (length content)) 1 content []
    ]
  ]

unfoldable pub find_user : Bytes → List AuthUser → Option ℤ
find_user name [] = none
find_user name (u ∷ us) = if str_eq u.username name then some u.balance else find_user name us

-- The balance that goes through the pointer, if the result is true.
unfoldable pub auth_lookup : Option AuthDb → Option Bytes → Option ℤ
unfolding find_user
auth_lookup none name = none
auth_lookup (some db) none = none
auth_lookup (some db) (some name) = find_user name db.users

unfoldable pub is_some {ℓ} : {A : Type ℓ} → Option A → Bool
is_some none = false
is_some (some a) = true

unfoldable pub auth_user_exists : Option AuthDb → Option Bytes → Bool
unfolding auth_lookup is_some
auth_user_exists db name = is_some (auth_lookup db name)
