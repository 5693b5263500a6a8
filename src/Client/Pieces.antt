-- ===== src/Client/Pieces.antt =====
-- client_main.c, the pieces of a stream that end with its first newline or before it.
use comp_p.Common.{
  ℕ, zero, suc, ◌≤◌, ◌≡◌, ◌≢◌, ap, false, inl, inr, [], ◌∷◌, ◌++◌, ◌==◌, ==_iff, Bytes, All, length,
  Bool-cases, arith,
}
use comp_p.CString.{c_str}
use comp_p.CString.Stream.{fgets_part}

-- No newline but one at the end.
pub data IsPiece (s : Bytes) : Type 0 where
  line : (body : Bytes) → All (λ c. c ≢ 10) body → s ≡ body ++ (10 ∷ []) → IsPiece s
  part : All (λ c. c ≢ 10) s → IsPiece s

pub ne_of_==_false : (a b : ℕ) → (a == b) ≡ false → a ≢ b
ne_of_==_false a b h e = cc (h, (==_iff a b).1 e)

IsPiece-cons : (c : ℕ) (s : Bytes) → c ≢ 10 → IsPiece s → IsPiece (c ∷ s)
IsPiece-cons c s n (line body h e) = line (c ∷ body) (n, h) (ap (◌∷◌ c) e)
IsPiece-cons c s n (part h) = part (n, h)

pub fgets_part-IsPiece :
    (n : ℕ) (s : Bytes) → IsPiece (fgets_part n s).0 × (length (fgets_part n s).0 ≤ n)
unfolding fgets_part
fgets_part-IsPiece zero s = (part tt, omega arith)
fgets_part-IsPiece (suc n) [] = (part tt, omega arith)
fgets_part-IsPiece (suc n) (c ∷ s) = elim (Bool-cases (c == 10)) [
  | inl end ↦
      rw (end, fgets_part) (line [] tt (ap (λ d. d ∷ []) ((==_iff c 10).0 end)), omega arith)
  | inr other ↦
      rw (other, fgets_part)
        (
          IsPiece-cons c (fgets_part n s).0 (ne_of_==_false c 10 other) (fgets_part-IsPiece n s).0,
          omega (arith, (fgets_part-IsPiece n s).1),
        )
]

-- The string that starts a piece is a piece, and holds no NUL.
pub c_str-IsPiece : (s : Bytes) → IsPiece s → IsPiece (c_str s)
unfolding c_str
c_str-IsPiece [] p = part tt
c_str-IsPiece (c ∷ s) p = elim (Bool-cases (c == 0)) [
  | inl nul ↦ rw (nul, c_str) (part tt)
  | inr other ↦ rw (other, c_str) (keep c s p (λ q. c_str-IsPiece s q))
]
  where
    keep :
        (c : ℕ) (s : Bytes)
        → IsPiece (c ∷ s)
        → (IsPiece s → IsPiece (c_str s))
        → IsPiece (c ∷ c_str s)
    keep c s (part h) f = IsPiece-cons c (c_str s) h.0 (f (part h.1))
    keep c s (line [] h e) f = subst_last c s e
      where
        subst_last : (c : ℕ) (s : Bytes) → c ∷ s ≡ 10 ∷ [] → IsPiece (c ∷ c_str s)
        subst_last c [] e = line [] tt (cc e)
        subst_last c (d ∷ t) e = cc e
    keep c s (line (b ∷ body) h e) f =
        IsPiece-cons c (c_str s) (λ k. h.0 (cc (k, e))) (f (line body h.1 (cc e)))

pub c_str-no_nul : (s : Bytes) → All (λ c. c ≢ 0) (c_str s)
unfolding c_str
c_str-no_nul [] = tt
c_str-no_nul (c ∷ s) = elim (Bool-cases (c == 0)) [
  | inl nul ↦ rw (nul, c_str) tt
  | inr other ↦ rw (other, c_str) (ne_of_==_false c 0 other, c_str-no_nul s)
]

pub length-c_str : (s : Bytes) → length (c_str s) ≤ length s
unfolding c_str
length-c_str [] = omega arith
length-c_str (c ∷ s) = ground (arith, length-c_str s)
