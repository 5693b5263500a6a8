-- ===== src/Auth/Load.antt =====
-- auth.c, the loading loop beside the sequence of lines that fgets delivers.
use comp_p.Common.{
  ℕ, zero, suc, ◌<◌, ◌≡◌, refl, inl, inr, Bool, true, List, [], ◌∷◌, ◌++◌, none, some, Bytes,
  length, Option-cases, arith,
}
use comp_p.CString.Stream.{fgets, fgets-parts, fgets_total}
use comp_p.Auth.{AuthUser, load_line, load_loop, auth_load, line_size}

-- The lines that successive calls of fgets with a buffer of that size deliver, in order.
pub data Lines (size : ℕ) : Bytes → List Bytes → Type 0 where
  end_of_file : Lines size [] []
  line :
      {s r l : Bytes} {ls : List Bytes}
      → fgets size s ≡ some (l, r)
      → Lines size r ls
      → Lines size s (l ∷ ls)

unfoldable pub flat : List Bytes → Bytes
flat [] = []
flat (l ∷ ls) = l ++ flat ls

Lines-upto :
    (n f : ℕ) (s : Bytes)
    → length s < f
    → (ls : List Bytes) × Lines (suc (suc n)) s ls × (flat ls ≡ s)
unfolding flat
Lines-upto n zero s h = elim h [ ]
Lines-upto n (suc f) [] h = ([], end_of_file, refl)
Lines-upto n (suc f) (c ∷ s) h =
    let (l, r, e) = fgets_total n c s in
    let (whole, shorter) = fgets-parts n (c ∷ s) r l e in
    let (ls, d, e') = Lines-upto n f r (omega arith) in (l ∷ ls, line e d, rw e' whole)

-- Every file falls into lines, and the lines make up the file.
pub Lines-total : (n : ℕ) (s : Bytes) → (ls : List Bytes) × Lines (suc (suc n)) s ls × (flat ls ≡ s)
Lines-total n s = Lines-upto n (suc (length s)) s (omega arith)

-- The users of the lines, the last line's first, before `users`.
unfoldable pub add_lines : List Bytes → List AuthUser → List AuthUser
add_lines [] users = users
add_lines (l ∷ ls) users = elim (load_line l) [
  | none ↦ add_lines ls users
  | some u ↦ add_lines ls (u ∷ users)
]

module _ (calloc_ok : ℕ → Bool) (plenty : (k : ℕ) → calloc_ok k ≡ true) where
  load_loop-add_lines :
      {s : Bytes} {ls : List Bytes} (f k : ℕ) (users : List AuthUser)
      → Lines line_size s ls
      → length s < f
      → load_loop calloc_ok f k s users ≡ some (record { users = add_lines ls users })
  unfolding load_loop add_lines
  load_loop-add_lines zero k users d h = elim h [ ]
  load_loop-add_lines (suc f) k users end_of_file h = refl
  load_loop-add_lines (suc f) k users (line {s} {r} {l} {ls} e d) h =
      let shorter : length r < f = omega (arith, fgets-parts 510 s r l e) in
      elim (Option-cases (load_line l)) [
        | inl bad ↦ rw (e, bad, load_loop, add_lines) (load_loop-add_lines f k users d shorter)
        | inr (u, good) ↦
            rw (e, good, plenty k, load_loop, add_lines)
              (load_loop-add_lines f (suc k) (u ∷ users) d shorter)
      ]

  -- With memory, the loaded database has the users of the file's lines.
  pub auth_load-add_lines :
      (file : Bytes) (ls : List Bytes)
      → Lines line_size file ls
      → auth_load calloc_ok (some file) ≡ some (record { users = add_lines ls [] })
  unfolding auth_load
  auth_load-add_lines file ls d =
      rw (plenty 0, auth_load) (load_loop-add_lines (suc (length file)) 1 [] d (omega arith))
