-- ===== src/CString/Decimal.antt =====
-- The decimal output of printf, beside the scanners.
use mathlib.Core.List.{append_assoc}
use comp_p.Common.{
  ℕ, All, All-append, ◌≢◌, zero, suc, ◌+◌, ◌/◌, ◌%◌, ◌≤◌, ◌<◌, ◌≡◌, refl, ◌∙◌, inl, inr, true,
  false, [], ◌∷◌, ◌++◌, ltb, if◌then◌else◌, Bytes, Bool-cases, arith,
}
use comp_p.CString.{is_space, is_digit}
use comp_p.CString.Number.{
  ℤ, pos, negsuc, scan_digits, starts_with_digit, signed_digits, strtoull, strtoll, to_int,
  unsigned_of, magnitude_max, ullong_max, llong_max,
}

unfoldable pub show_fuel : ℕ → ℕ → Bytes
show_fuel zero n = []
show_fuel (suc f) n =
    let more = show_fuel f (n / 10) in
    if ltb n 10 then (n + b'0') ∷ [] else more ++ ((n % 10 + b'0') ∷ [])

-- "%llu": each digit divides the number by ten, so n + 1 rounds are enough.
unfoldable pub show_ℕ : ℕ → Bytes
unfolding show_fuel
show_ℕ n = show_fuel (suc n) n

-- "%d" and "%ld".
unfoldable pub show_ℤ : ℤ → Bytes
unfolding show_ℕ
show_ℤ (pos n) = show_ℕ n
show_ℤ (negsuc n) = b'-' ∷ show_ℕ (suc n)

show_fuel-plain : (f n : ℕ) → All (λ c. c ≢ 10) (show_fuel f n)
unfolding show_fuel
show_fuel-plain zero n = tt
show_fuel-plain (suc f) n = elim (Bool-cases (ltb n 10)) [
  | inl small ↦ rw small ((λ e. omega (arith, e)), tt)
  | inr big ↦ rw big (
      All-append (λ c. c ≢ 10) (show_fuel f (n / 10)) ((n % 10 + b'0') ∷ [])
        (show_fuel-plain f (n / 10)) ((λ e. omega (arith, e)), tt))
]

-- The text of a number has no newline.
pub show_ℕ-plain : (n : ℕ) → All (λ c. c ≢ 10) (show_ℕ n)
unfolding show_ℕ
show_ℕ-plain n = show_fuel-plain (suc n) n

scan-show_fuel :
    (f n : ℕ) (r : Bytes) → n < f → scan_digits 0 (show_fuel f n ++ r) ≡ scan_digits n r
unfolding show_fuel scan_digits
scan-show_fuel zero n r h = elim h [ ]
scan-show_fuel (suc f) n r h = elim (Bool-cases (ltb n 10)) [
  | inl small ↦ rw small (ground arith)
  | inr big ↦
      rw (big, append_assoc, scan-show_fuel f (n / 10) ((n % 10 + b'0') ∷ r) (ground arith))
        (ground arith)
]

-- The text of a number starts with a digit.
abbrev pub Digits : Bytes → Type 0
Digits s = (c : ℕ) × (t : Bytes) × (s ≡ c ∷ t) × (is_digit c ≡ true)

show_fuel-Digits : (f n : ℕ) → n < f → Digits (show_fuel f n)
unfolding show_fuel is_digit
show_fuel-Digits zero n h = elim h [ ]
show_fuel-Digits (suc f) n h = elim (Bool-cases (ltb n 10)) [
  | inl small ↦ (n + b'0', [], rw small, ground arith)
  | inr big ↦
      let (c, t, e, d) = show_fuel-Digits f (n / 10) (ground arith) in
      (c, t ++ ((n % 10 + b'0') ∷ []), rw (big, e), d)
]

pub show_ℕ-Digits : (n : ℕ) → Digits (show_ℕ n)
unfolding show_ℕ
show_ℕ-Digits n = show_fuel-Digits (suc n) n (omega arith)

pub scan-show_ℕ : (n : ℕ) (r : Bytes) → scan_digits 0 (show_ℕ n ++ r) ≡ scan_digits n r
unfolding show_ℕ
scan-show_ℕ n r = scan-show_fuel (suc n) n r (omega arith)

pub scan_digits-stop : (n : ℕ) (r : Bytes) → starts_with_digit r ≡ false → scan_digits n r ≡ (n, r)
unfolding scan_digits starts_with_digit
scan_digits-stop n [] h = refl
scan_digits-stop n (c ∷ r) h = rw h

-- A digit is neither white space nor a sign.
signed_digits-plain :
    (c : ℕ) (t : Bytes) → is_digit c ≡ true → signed_digits (c ∷ t) ≡ (false, c ∷ t)
unfolding signed_digits is_digit is_space
signed_digits-plain c t d = ground arith

signed_digits-minus : (t : Bytes) → signed_digits (b'-' ∷ t) ≡ (true, t)
unfolding signed_digits is_space
signed_digits-minus t = refl

-- The text of n followed by no digit is n, wherever it is read.
pub read_ℕ :
    (n : ℕ) (r : Bytes)
    → starts_with_digit r ≡ false
    → (signed_digits (show_ℕ n ++ r) ≡ (false, show_ℕ n ++ r))
      × (starts_with_digit (show_ℕ n ++ r) ≡ true)
      × (scan_digits 0 (show_ℕ n ++ r) ≡ (n, r))
unfolding starts_with_digit
read_ℕ n r h =
    let (c, t, e, d) = show_ℕ-Digits n in
    (rw e (signed_digits-plain c (t ++ r) d), rw e d, scan-show_ℕ n r ∙ scan_digits-stop n r h)

pub strtoull-show_ℕ :
    (n : ℕ) (r : Bytes)
    → n ≤ ullong_max
    → starts_with_digit r ≡ false
    → strtoull (show_ℕ n ++ r) ≡ record { value = n; rest = r; moved = true; range_error = false }
unfolding strtoull unsigned_of
strtoull-show_ℕ n r h s = let (a, b, c) = read_ℕ n r s in rw (a, b, c) (ground arith)

-- The values that a long holds.
abbrev pub IsLong : ℤ → Type 0
IsLong (pos n) = n ≤ llong_max
IsLong (negsuc n) = n ≤ llong_max

pub strtoll-show_ℤ :
    (z : ℤ) (r : Bytes)
    → IsLong z
    → starts_with_digit r ≡ false
    → strtoll (show_ℤ z ++ r) ≡ record { value = z; rest = r; moved = true; range_error = false }
unfolding strtoll show_ℤ to_int magnitude_max
strtoll-show_ℤ (pos n) r h s = let (a, b, c) = read_ℕ n r s in rw (a, b, c) (ground arith)
strtoll-show_ℤ (negsuc n) r h s =
    let (a, b, c) = read_ℕ (suc n) r s in
    rw (signed_digits-minus (show_ℕ (suc n) ++ r), b, c) (ground arith)
