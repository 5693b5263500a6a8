-- ===== src/Rpc/Lines.antt =====
-- rpc.c, the shape of a response.
use comp_p.Common.{ℕ, suc, ◌≡◌, ◌≢◌, refl, [], ◌∷◌, ◌++◌, Bytes, All, All-append, arith}
use comp_p.CString.Number.{ℤ, pos, negsuc}
use comp_p.CString.Decimal.{show_ℕ, show_ℤ, show_ℕ-plain}
use comp_p.Rpc.Text.{newline, response_code, response_u64, response_i32, response_generate}

abbrev pub IsPlain : Bytes → Type 0
IsPlain s = All (λ c. c ≢ newline) s

-- The text is one line.
abbrev pub IsLine : Bytes → Type 0
IsLine text = (body : Bytes) × (text ≡ body ++ (newline ∷ [])) × IsPlain body

show_ℤ-IsPlain : (z : ℤ) → IsPlain (show_ℤ z)
unfolding show_ℤ
show_ℤ-IsPlain (pos n) = show_ℕ-plain n
show_ℤ-IsPlain (negsuc n) = ((λ e. omega (arith, e)), show_ℕ-plain (suc n))

pub response_code-IsLine : (code : ℤ) → IsLine (response_code code)
unfolding response_code
response_code-IsLine code = (show_ℤ code, refl, show_ℤ-IsPlain code)

pub response_i32-IsLine : (value : ℤ) → IsLine (response_i32 value)
unfolding response_i32
response_i32-IsLine value = (show_ℤ value, refl, show_ℤ-IsPlain value)

pub response_u64-IsLine : (value : ℕ) → IsLine (response_u64 value)
unfolding response_u64
response_u64-IsLine value = (
  b'0' ∷ b' ' ∷ show_ℕ value,
  refl,
  ((λ e. omega (arith, e)), ((λ e. omega (arith, e)), show_ℕ-plain value)),
)

pub response_generate-IsLine : (dat movie : ℤ) → IsLine (response_generate dat movie)
unfolding response_generate
response_generate-IsLine dat movie = (
  b'0' ∷ b' ' ∷ show_ℤ dat ++ (b' ' ∷ show_ℤ movie),
  refl,
  (
    (λ e. omega (arith, e)),
    (
      (λ e. omega (arith, e)),
      All-append (λ c. c ≢ newline) (show_ℤ dat) (b' ' ∷ show_ℤ movie) (show_ℤ-IsPlain dat)
          ((λ e. omega (arith, e)), show_ℤ-IsPlain movie),
    ),
  ),
)
