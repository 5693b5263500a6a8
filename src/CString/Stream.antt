-- ===== src/CString/Stream.antt =====
-- fgets on the rest of a file: a line with its newline, or as much of it as the buffer holds.
use comp_p.Common.{
  ℕ, zero, suc, ◌-◌, ◌<◌, ◌≡◌, refl, [], ◌∷◌, ◌++◌, Option, none, some, ◌==◌, if◌then◌else◌, Bytes,
  length, arith,
}

unfoldable pub fgets_part : ℕ → Bytes → Bytes × Bytes
fgets_part zero s = ([], s)
fgets_part (suc n) [] = ([], [])
fgets_part (suc n) (c ∷ s) =
    if c == 10 then (c ∷ [], s) else (let (l, r) = fgets_part n s in (c ∷ l, r))

-- `none` at the end of the file.
unfoldable pub fgets : ℕ → Bytes → Option (Bytes × Bytes)
unfolding fgets_part
fgets size [] = none
fgets size (c ∷ s) = some (fgets_part (size - 1) (c ∷ s))

-- Nothing is lost: the line and the rest make up the file.
pub fgets_part-append : (n : ℕ) (s : Bytes) → (fgets_part n s).0 ++ (fgets_part n s).1 ≡ s
unfolding fgets_part
fgets_part-append zero s = refl
fgets_part-append (suc n) [] = refl
fgets_part-append (suc n) (c ∷ s) = ground (arith, fgets_part-append n s)

fgets_part-shrinks :
    (n : ℕ) (c : ℕ) (s : Bytes) → length (fgets_part (suc n) (c ∷ s)).1 < length (c ∷ s)
unfolding fgets_part
fgets_part-shrinks zero c s = ground arith
fgets_part-shrinks (suc n) c [] = ground arith
fgets_part-shrinks (suc n) c (d ∷ s) = ground (arith, fgets_part-shrinks n d s)

-- A buffer of two bytes or more takes a byte of what is left.
fgets_cons :
    (n c : ℕ) (s r l : Bytes)
    → fgets_part (suc n) (c ∷ s) ≡ (l, r)
    → (l ++ r ≡ c ∷ s) × (length r < length (c ∷ s))
fgets_cons n c s r l e =
    let shrinks = fgets_part-shrinks n c s in
    let whole = fgets_part-append (suc n) (c ∷ s) in (rw e at whole, rw e at shrinks)

some_pair : {p q : Bytes × Bytes} → some p ≡ some q → p ≡ q
some_pair e = cc

pub fgets-parts :
    (n : ℕ) (s r l : Bytes)
    → fgets (suc (suc n)) s ≡ some (l, r)
    → (l ++ r ≡ s) × (length r < length s)
unfolding fgets
fgets-parts n [] r l e = cc
fgets-parts n (c ∷ s) r l e =
    let size : suc (suc n) - 1 ≡ suc n = omega arith in
    fgets_cons n c s r l (some_pair (rw size at e))

pub fgets_total :
    (n c : ℕ) (s : Bytes) → (l r : Bytes) × (fgets (suc (suc n)) (c ∷ s) ≡ some (l, r))
unfolding fgets
fgets_total n c s =
    ((fgets_part (suc (suc n) - 1) (c ∷ s)).0, (fgets_part (suc (suc n) - 1) (c ∷ s)).1, refl)
