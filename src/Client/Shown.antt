-- ===== src/Client/Shown.antt =====
-- client_main.c, display_rpc_response on the responses of the server.
use comp_p.Common.{
  ℕ, ◌-◌, ◌^◌, ◌<◌, ◌≡◌, ◌≢◌, refl, sym, ap, ◌∙◌, subst, true, false, [], ◌∷◌, ◌++◌, some, Bytes,
  codes, str_eq, str_eq_iff, All, All-map, Bool-cases, inl, inr, arith,
}
use comp_p.CString.{c_str, strncpy, strtok, is_blank, is_space, is_digit, skip_delims, token_part}
use comp_p.CString.Number.{pos, negsuc}
use comp_p.CString.Decimal.{show_ℕ, show_ℤ, show_fuel, show_ℕ-Digits}
use comp_p.CString.Digits.{show_ℕ-AllDigits, length-show_ℕ, show_ℕ-injective}
use comp_p.Auth.{is_empty}
use comp_p.Rpc.Text.{
  response_code, response_u64, response_generate, rpc_fail, rpc_value, rpc_internal,
}
use comp_p.Client.{max_response_len}
use comp_p.Client.Text.{drop_start, drop_end, is_newline, strip_newline, trim_whitespace}
use comp_p.Client.Display.{puts, show_movie, show_success, show_first, display_rpc_response}
use comp_p.Client.Copies.{IsText, copy_lem, show_ℕ-IsText, drop_end-append, strtok-last}

digit-apart : (c : ℕ) → is_digit c ≡ true → (is_space c ≡ false) × (is_blank c ≡ false)
unfolding is_digit is_space is_blank
digit-apart c h = ground arith

-- The text of a number that is not 0 is no other token that the display knows.
not_minus : (n : ℕ) → str_eq (show_ℕ n) (codes "-1") ≡ false
unfolding str_eq is_digit
not_minus n = let (c, t, e, d) = show_ℕ-Digits n in rw e (ground arith)

not_zero : (n : ℕ) → n ≢ 0 → str_eq (show_ℕ n) (codes "0") ≡ false
not_zero n ne = elim (Bool-cases (str_eq (show_ℕ n) (codes "0"))) [
  | inr no_match ↦ no_match
  | inl same ↦ absurd (
      ne (
        show_ℕ-injective n 0
          ((str_eq_iff (show_ℕ n) (codes "0")).0 same ∙ unfold show_ℕ show_fuel in refl)))
]

number-last :
    (s : Bytes) (c : ℕ) (t : Bytes)
    → s ≡ c ∷ t
    → All (λ x. is_blank x ≡ false) s
    → strtok is_blank s ≡ some (s, [])
number-last s c t e h =
    ap (strtok is_blank) e
    ∙ (strtok-last is_blank c t (subst (All (λ x. is_blank x ≡ false)) e h)
        ∙ ap (λ u. some (u, [])) (sym e))

show_success-handle :
    (n : ℕ)
    → n ≢ 0
    → show_success (strtok is_blank (show_ℕ n)) ≡ puts (codes "Success " ++ show_ℕ n)
unfolding show_success
show_success-handle n ne =
    let (c, t, e, d) = show_ℕ-Digits n in
    ap show_success (
      number-last (show_ℕ n) c t e
        (All-map _ _ (λ x h. (digit-apart x h).1) (show_ℕ n) (show_ℕ-AllDigits n)))
    ∙ rw (not_minus n, not_zero n ne, show_success) refl

-- The text of a number, behind "0 ".
abbrev zero_and : ℕ → Bytes
zero_and n = b'0' ∷ b' ' ∷ show_ℕ n

trim-zero_and : (n : ℕ) → trim_whitespace (zero_and n) ≡ zero_and n
unfolding trim_whitespace drop_start is_space
trim-zero_and n =
    let (c, t, e, d) = show_ℕ-Digits n in
    let digits : All (λ x. is_space x ≡ false) (c ∷ t) =
      subst (All (λ x. is_space x ≡ false)) e
        (All-map _ _ (λ x h. (digit-apart x h).0) (show_ℕ n) (show_ℕ-AllDigits n)) in
    rw e (drop_end-append is_space (b'0' ∷ b' ' ∷ []) c t digits)

zero-IsText : (n : ℕ) → All IsText (zero_and n)
unfolding is_newline
zero-IsText n =
    (((λ e. omega (arith, e)), refl), (((λ e. omega (arith, e)), refl), show_ℕ-IsText n))

copy-response_u64 :
    (n : ℕ)
    → n < 2 ^ 64
    → strip_newline (strncpy (max_response_len - 1) (response_u64 n)) ≡ zero_and n
unfolding response_u64
copy-response_u64 n h = copy_lem (zero_and n) (zero-IsText n) (omega (arith, length-show_ℕ n h))

show_first-zero :
    (copy : Bytes) (n : ℕ)
    → show_first copy (strtok is_blank (zero_and n)) ≡ show_success (strtok is_blank (show_ℕ n))
unfolding show_first strtok skip_delims token_part is_blank str_eq
show_first-zero copy n = refl

display-response_u64 :
    (n : ℕ)
    → n ≢ 0
    → n < 2 ^ 64
    → display_rpc_response (response_u64 n) ≡ puts (codes "Success " ++ show_ℕ n)
unfolding display_rpc_response
display-response_u64 n ne h =
    rw (copy-response_u64 n h, trim-zero_and n)
      (unfold is_empty str_eq in show_first-zero (zero_and n) n ∙ show_success-handle n ne)

-- The responses without a handle: the result codes, and the three ends of a movie generation.
unfoldable pub IsShown : Bytes → Bytes → Type 0
IsShown response shown = display_rpc_response response ≡ puts shown

display-code :
    IsShown (response_code (pos 0)) (codes "Success")
    × IsShown (response_code rpc_fail) (codes "RPC Failed")
    × IsShown (response_code rpc_value) (codes "Value error")
    × IsShown (response_code rpc_internal) (codes "Internal error")
unfolding IsShown display_rpc_response response_code show_ℤ show_ℕ show_fuel strip_newline strncpy
    c_str drop_end drop_start is_newline is_space trim_whitespace is_empty str_eq show_first
    show_success strtok skip_delims token_part is_blank
display-code = (refl, refl, refl, refl)

display-generate :
    IsShown (response_generate (pos 0) (pos 0)) (codes "Success")
    × IsShown (response_generate (negsuc 0) (pos 0)) (codes "Data write failed")
    × IsShown (response_generate (pos 0) (negsuc 0)) (codes "Movie write failed")
unfolding IsShown display_rpc_response response_generate show_ℤ show_ℕ show_fuel strip_newline
    strncpy c_str drop_end drop_start is_newline is_space trim_whitespace is_empty str_eq show_first
    show_success show_movie strtok skip_delims token_part is_blank
display-generate = (refl, refl, refl)

-- For every number other than 0 that 64 bits hold, the user sees "Success" and the number for its
-- response_u64, and the fitting message for each of the result codes 0, -1, -2 and -3 and each of
-- the three ends of a movie.
pub display_rpc_response_lem :
    (n : ℕ)
    → n ≢ 0
    → n < 2 ^ 64
    → IsShown (response_u64 n) (codes "Success " ++ show_ℕ n)
      × (IsShown (response_code (pos 0)) (codes "Success")
          × IsShown (response_code rpc_fail) (codes "RPC Failed")
          × IsShown (response_code rpc_value) (codes "Value error")
          × IsShown (response_code rpc_internal) (codes "Internal error"))
      × (IsShown (response_generate (pos 0) (pos 0)) (codes "Success")
          × IsShown (response_generate (negsuc 0) (pos 0)) (codes "Data write failed")
          × IsShown (response_generate (pos 0) (negsuc 0)) (codes "Movie write failed"))
unfolding IsShown
display_rpc_response_lem n ne h = (display-response_u64 n ne h, display-code, display-generate)
