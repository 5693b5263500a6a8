-- ===== src/Auth/Tests.antt =====
-- Runs of the user database, and the theorems at concrete inputs.
use comp_p.Common.{
  ℕ, ◌≡◌, ◌↔◌, List, refl, Bool, true, false, [], ◌∷◌, some, Bytes, codes, length, All, ◌++◌, ◌≤◌,
  ◌<◌,
}
use comp_p.CString.{is_alnum}
use comp_p.CString.Number.{pos, negsuc}
use comp_p.Auth.{AuthUser, auth_valid_username, auth_load, make_user}
use comp_p.CString.{strncpy}
use comp_p.Auth.Saved.{FileLine, entry, remark}
use comp_p.Auth.Lookup.{IsEntry, auth_valid_username_iff, auth_load-IsEntry}

abbrev ann : Bytes
ann = codes "ann"

abbrev newline : Bytes
newline = 10 ∷ []

abbrev first_line : Bytes
first_line = codes "ann 7" ++ newline

abbrev plenty : ℕ → Bool
plenty k = true

abbrev ann_user : AuthUser
ann_user = record { username = ann; balance = pos 7 }

load_one : auth_load plenty (some first_line) ≡ some (record { users = ann_user ∷ [] })
unfolding auth_load make_user strncpy
load_one = refl

rejected_names :
    (auth_valid_username (some (codes "a-b")) ≡ false) × (auth_valid_username (some []) ≡ false)
unfolding auth_valid_username
rejected_names = (refl, refl)

-- Two entries for the same name, with a remark between them.
abbrev saved : List FileLine
saved = entry ann (pos 7) ∷ remark b'#' (codes " bonus") ∷ entry ann (negsuc 11) ∷ []

auth_valid_username_iff_example :
    (auth_valid_username (some ann) ≡ true)
    ↔ ((0 < length ann) × (length ann ≤ 32) × All (λ c. is_alnum c ≡ true) ann)
auth_valid_username_iff_example = auth_valid_username_iff ann

auth_load-IsEntry_example : All IsEntry (ann_user ∷ [])
auth_load-IsEntry_example =
    auth_load-IsEntry plenty (some first_line) (record { users = ann_user ∷ [] }) load_one
