-- ===== src/Auth/Lookup.antt =====
-- What a lookup finds in the database that was loaded.
use mathlib.Core.Option.{some-injective}
use comp_p.Common.{
  ℕ, zero, suc, ◌≤◌, ◌<◌, ◌≡◌, ◌↔◌, refl, subst, inl, inr, Bool, true, List, [], ◌∷◌, Option, none,
  some, Bytes, length, take-all, All, str_eq, if◌then◌else◌, Bool-cases, Option-cases, arith,
}
use comp_p.CString.{c_str, strncpy, is_alnum}
use comp_p.CString.Number.{ℤ}
use comp_p.Auth.{
  AuthUser, AuthDb, all_alnum, auth_valid_username, auth_username_max, in_int32, two_tokens,
  make_user, parse_balance, load_line, load_loop, auth_load, find_user, auth_lookup, line_size,
}
use comp_p.CString.Stream.{fgets}
use comp_p.Auth.Load.{Lines, add_lines, auth_load-add_lines}

abbrev pub or_else {ℓ} : {A : Type ℓ} → Option A → Option A → Option A
or_else none b = b
or_else (some a) b = some a

abbrev names : Bytes → Option AuthUser → Option ℤ
names name none = none
names name (some u) = if str_eq u.username name then some u.balance else none

-- The balance on the last line of a file that is an entry for that name.
unfoldable pub last_entry : Bytes → List Bytes → Option ℤ
last_entry name [] = none
last_entry name (l ∷ ls) = or_else (last_entry name ls) (names name (load_line l))

find_user-add_lines :
    (name : Bytes) (ls : List Bytes) (users : List AuthUser)
    → find_user name (add_lines ls users) ≡ or_else (last_entry name ls) (find_user name users)
unfolding add_lines last_entry find_user
find_user-add_lines name [] users = refl
find_user-add_lines name (l ∷ ls) users = elim (Option-cases (load_line l)) [
  | inl bad ↦ rw bad (ground (arith, find_user-add_lines name ls users))
  | inr (u, good) ↦ rw good (ground (arith, find_user-add_lines name ls (u ∷ users)))
]

-- If no allocation fails, then a lookup finds what the last of the lines that fgets delivers adds
-- for that name, with the buffer of auth_load.
pub auth_lookup-auth_load :
    (calloc_ok : ℕ → Bool) (file name : Bytes) (ls : List Bytes)
    → ((k : ℕ) → calloc_ok k ≡ true)
    → Lines line_size file ls
    → auth_lookup (auth_load calloc_ok (some file)) (some name) ≡ last_entry name ls
unfolding auth_lookup find_user
auth_lookup-auth_load calloc_ok file name ls plenty d =
    rw (auth_load-add_lines calloc_ok plenty file ls d)
      (ground (arith, find_user-add_lines name ls []))

all_alnum_iff : (s : Bytes) → (all_alnum s ≡ true) ↔ All (λ c. is_alnum c ≡ true) s
unfolding all_alnum
all_alnum_iff [] = (λ h. tt, λ h. refl)
all_alnum_iff (c ∷ s) =
    let (there, back) = all_alnum_iff s in
    (λ h. (ground arith, there (ground arith)), λ h. ground (arith, back h.1))

-- A user name is accepted exactly if it has 1 to 32 bytes, each of them alphanumeric.
pub auth_valid_username_iff :
    (name : Bytes)
    → (auth_valid_username (some name) ≡ true)
      ↔ ((0 < length name) × (length name ≤ 32) × All (λ c. is_alnum c ≡ true) name)
unfolding auth_valid_username
auth_valid_username_iff name = (
  λ h. (ground arith, ground arith, (all_alnum_iff name).0 (ground arith)),
  λ h. ground (arith, (all_alnum_iff name).1 h.2),
)

c_str-alnum : (s : Bytes) → all_alnum s ≡ true → c_str s ≡ s
unfolding c_str all_alnum is_alnum
c_str-alnum [] h = refl
c_str-alnum (c ∷ s) h = ground (arith, c_str-alnum s)

-- strncpy keeps a valid name whole.
pub strncpy-valid :
    (name : Bytes) → auth_valid_username (some name) ≡ true → strncpy auth_username_max name ≡ name
unfolding auth_valid_username strncpy
strncpy-valid name h =
    let whole : c_str name ≡ name = c_str-alnum name (ground arith) in
    rw whole (take-all 32 name (ground arith))

-- What auth_load admits to the database.
pub record IsEntry (u : AuthUser) : Type 0 where
  pub valid : auth_valid_username (some u.username) ≡ true
  pub fits : in_int32 u.balance ≡ true

parse_balance-in_int32 : (s : Bytes) (z : ℤ) → parse_balance s ≡ some z → in_int32 z ≡ true
unfolding parse_balance in_int32
parse_balance-in_int32 s z e = ground arith

make_user-IsEntry :
    (name : Bytes) (z : ℤ) (u : AuthUser)
    → auth_valid_username (some name) ≡ true
    → in_int32 z ≡ true
    → make_user name (some z) ≡ some u
    → IsEntry u
unfolding make_user
make_user-IsEntry name z u valid fits e =
    subst IsEntry (some-injective _ _ e)
      (record { valid = rw (strncpy-valid name valid) valid; fits = fits })

load_line-IsEntry : (l : Bytes) (u : AuthUser) → load_line l ≡ some u → IsEntry u
unfolding load_line
load_line-IsEntry l u e = elim (Option-cases (two_tokens l)) [
  | inl few ↦ cc (rw (few, load_line) at e)
  | inr ((name, text), two) ↦ elim (Bool-cases (auth_valid_username (some name))) [
    | inl valid ↦ elim (Option-cases (parse_balance text)) [
      | inl bad ↦ cc (rw (two, valid, bad, load_line) at e)
      | inr (z, good) ↦
          make_user-IsEntry name z u valid (parse_balance-in_int32 text z good)
            (rw (two, valid, good, load_line) at e)
    ]
    | inr invalid ↦ cc (rw (two, invalid, load_line) at e)
  ]
]

module _ (calloc_ok : ℕ → Bool) where
  load_loop-IsEntry :
      (f k : ℕ) (s : Bytes) (users : List AuthUser) (db : AuthDb)
      → All IsEntry users
      → load_loop calloc_ok f k s users ≡ some db
      → All IsEntry db.users
  unfolding load_loop
  load_loop-IsEntry zero k s users db h e = ground arith
  load_loop-IsEntry (suc f) k s users db h e = elim (Option-cases (fgets line_size s)) [
    | inl end ↦ ground arith
    | inr ((l, r), more) ↦ elim (Option-cases (load_line l)) [
      | inl bad ↦ load_loop-IsEntry f k r users db h (rw (more, bad, load_loop) at e)
      | inr (u, good) ↦ elim (Bool-cases (calloc_ok k)) [
        | inl ok ↦
            load_loop-IsEntry f (suc k) r (u ∷ users) db (load_line-IsEntry l u good, h)
              (rw (more, good, ok, load_loop) at e)
        | inr full ↦ cc (rw (more, good, full, load_loop) at e)
      ]
    ]
  ]

-- Whatever the file holds, and whichever allocations fail, each user of a database that auth_load
-- returns has a valid name and a balance that fits 32 bits.
pub auth_load-IsEntry :
    (calloc_ok : ℕ → Bool) (file : Option Bytes) (db : AuthDb)
    → auth_load calloc_ok file ≡ some db
    → All IsEntry db.users
unfolding auth_load
auth_load-IsEntry calloc_ok none db e = ground arith
auth_load-IsEntry calloc_ok (some file) db e = elim (Bool-cases (calloc_ok 0)) [
  | inl ok ↦
      load_loop-IsEntry calloc_ok (suc (length file)) 1 file [] db tt (rw (ok, auth_load) at e)
  | inr full ↦ cc (rw (full, auth_load) at e)
]
