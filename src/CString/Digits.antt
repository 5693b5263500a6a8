-- ===== src/CString/Digits.antt =====
-- The bytes and the length of the decimal text of a number.
use mathlib.Core.List.{append-nil}
use comp_p.Common.{
  ℕ, zero, suc, ◌+◌, ◌*◌, ◌/◌, ◌%◌, ◌^◌, ◌≤◌, ◌<◌, ◌≡◌, refl, sym, ap, ◌∙◌, inl, inr, true, [], ◌∷◌,
  ltb, Bytes, Bool-cases, All, All-append, length, length-append, arith,
}
use comp_p.CString.{is_digit}
use comp_p.CString.Number.{ℤ, pos, negsuc, scan_digits}
use comp_p.CString.Decimal.{IsLong, show_ℤ, show_fuel, show_ℕ, scan-show_ℕ}

abbrev pub AllDigits : Bytes → Type 0
AllDigits s = All (λ c. is_digit c ≡ true) s

show_fuel-AllDigits : (f n : ℕ) → AllDigits (show_fuel f n)
unfolding show_fuel is_digit
show_fuel-AllDigits zero n = tt
show_fuel-AllDigits (suc f) n = elim (Bool-cases (ltb n 10)) [
  | inl small ↦ rw small (ground arith, tt)
  | inr big ↦ rw big (
      All-append (λ c. is_digit c ≡ true) (show_fuel f (n / 10)) ((n % 10 + b'0') ∷ [])
        (show_fuel-AllDigits f (n / 10)) (ground arith, tt))
]

pub show_ℕ-AllDigits : (n : ℕ) → AllDigits (show_ℕ n)
unfolding show_ℕ
show_ℕ-AllDigits n = show_fuel-AllDigits (suc n) n

-- 10^(k + 1).
abbrev tens : ℕ → ℕ
tens zero = 10
tens (suc k) = 10 * tens k

-- A number below 10^(k + 1) has at most k + 1 digits.
length-show_fuel : (f n k : ℕ) → n < tens k → length (show_fuel f n) ≤ suc k
unfolding show_fuel
length-show_fuel zero n k h = omega arith
length-show_fuel (suc f) n zero h = rw (small) (omega arith)
  where
    small : ltb n 10 ≡ true
    small = ground arith
length-show_fuel (suc f) n (suc k) h = elim (Bool-cases (ltb n 10)) [
  | inl small ↦ rw small (omega arith)
  | inr big ↦ rw big (
      omega (
        arith,
        length-append (show_fuel f (n / 10)) ((n % 10 + b'0') ∷ []),
        length-show_fuel f (n / 10) k (omega arith),
      ))
]

pub length-show_ℕ : (n : ℕ) → n < 2 ^ 64 → length (show_ℕ n) ≤ 20
unfolding show_ℕ
length-show_ℕ n h = length-show_fuel (suc n) n 19 (omega arith)

pub length-show_ℤ : (z : ℤ) → IsLong z → length (show_ℤ z) ≤ 21
unfolding show_ℤ
length-show_ℤ (pos n) h = omega (arith, length-show_ℕ n (omega arith))
length-show_ℤ (negsuc n) h = omega (arith, length-show_ℕ (suc n) (omega arith))

pub show_ℕ-injective : (m n : ℕ) → show_ℕ m ≡ show_ℕ n → m ≡ n
show_ℕ-injective m n e = ap (λ p. p.0) (sym (value m) ∙ (ap (scan_digits 0) e ∙ value n))
  where
    value : (k : ℕ) → scan_digits 0 (show_ℕ k) ≡ (k, [])
    value k =
        ap (scan_digits 0) (sym (append-nil (show_ℕ k)))
        ∙ (scan-show_ℕ k [] ∙ unfold scan_digits in refl)
