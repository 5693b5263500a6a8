-- ===== src/CString/Number.antt =====
-- strtoull, strtoll and strtol in base 10, with 64-bit results.
use comp_p.Common.{
  ℕ, suc, ◌+◌, ◌-◌, ◌*◌, ◌^◌, ◌%◌, Bool, true, false, [], ◌∷◌, leb, ◌==◌, if◌then◌else◌, Bytes,
}
use comp_p.CString.{is_space, is_digit}

-- Signed integers: `negsuc n` is -(n + 1).
pub data ℤ : Type 0 where
  pos : ℕ → ℤ
  negsuc : ℕ → ℤ

abbrev pub ullong_max : ℕ
ullong_max = 2 ^ 64 - 1

abbrev pub llong_max : ℕ
llong_max = 2 ^ 63 - 1

unfoldable pub skip_space : Bytes → Bytes
unfolding is_space
skip_space [] = []
skip_space (c ∷ s) = if is_space c then skip_space s else c ∷ s

-- The sign, if there is one, and the rest.
unfoldable pub take_sign : Bytes → Bool × Bytes
take_sign [] = (false, [])
take_sign (c ∷ s) =
    if c == b'-' then (true, s) else if c == b'+' then (false, s) else (false, c ∷ s)

-- The value of the leading digits, read after `acc`, and the rest.
unfoldable pub scan_digits : ℕ → Bytes → ℕ × Bytes
unfolding is_digit
scan_digits acc [] = (acc, [])
scan_digits acc (c ∷ s) = if is_digit c then scan_digits (acc * 10 + (c - b'0')) s else (acc, c ∷ s)

unfoldable pub starts_with_digit : Bytes → Bool
unfolding is_digit
starts_with_digit [] = false
starts_with_digit (c ∷ s) = is_digit c

-- What is left at `*end`; `moved` is `end != s`, `range_error` is `errno == ERANGE`.
pub record Scan (A : Type 0) : Type 0 where
  pub value : A
  pub rest : Bytes
  pub moved : Bool
  pub range_error : Bool

unfoldable pub signed_digits : Bytes → Bool × Bytes
unfolding skip_space take_sign
signed_digits s = take_sign (skip_space s)

unfoldable pub unsigned_of : Bool × ℕ → ℕ
unsigned_of (negative, m) = if negative then (2 ^ 64 - m) % 2 ^ 64 else m

unfoldable pub strtoull : Bytes → Scan ℕ
unfolding signed_digits scan_digits starts_with_digit unsigned_of
strtoull s =
    let (negative, digits) = signed_digits s in
    let (m, rest) = scan_digits 0 digits in
    if starts_with_digit digits
    then (if leb m ullong_max
        then record {
          value = unsigned_of (negative, m);
          rest = rest;
          moved = true;
          range_error = false;
        }
        else record { value = ullong_max; rest = rest; moved = true; range_error = true })
    else record { value = 0; rest = s; moved = false; range_error = false }

unfoldable pub to_int : Bool → ℕ → ℤ
to_int negative m = if negative then (if m == 0 then pos 0 else negsuc (m - 1)) else pos m

-- The greatest magnitude of a long of that sign.
unfoldable pub magnitude_max : Bool → ℕ
magnitude_max negative = if negative then suc llong_max else llong_max

-- strtol and strtoll: both types have 64 bits.
unfoldable pub strtoll : Bytes → Scan ℤ
unfolding signed_digits scan_digits starts_with_digit to_int magnitude_max
strtoll s =
    let (negative, digits) = signed_digits s in
    let (m, rest) = scan_digits 0 digits in
    let bound = magnitude_max negative in
    if starts_with_digit digits
    then (if leb m bound
        then record { value = to_int negative m; rest = rest; moved = true; range_error = false }
        else record {
          value = to_int negative bound;
          rest = rest;
          moved = true;
          range_error = true;
        })
    else record { value = pos 0; rest = s; moved = false; range_error = false }
