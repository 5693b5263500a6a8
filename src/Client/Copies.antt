-- ===== src/Client/Copies.antt =====
-- client_main.c, the copies that the client makes of a response.
use comp_p.Common.{
  ℕ, suc, ◌+◌, ◌-◌, ◌<◌, ◌≡◌, ◌≢◌, refl, ap, ◌∙◌, Bool, true, false, ◌&&◌, [], ◌∷◌, ◌++◌, some,
  if◌then◌else◌, Bytes, All, All-map, length, length-append, take, take-all, arith,
}
use comp_p.CString.{c_str, strncpy, strtok, skip_delims, token_part, is_digit}
use comp_p.CString.Number.{ℤ, pos, negsuc}
use comp_p.CString.Decimal.{show_ℕ, show_ℤ}
use comp_p.CString.Digits.{show_ℕ-AllDigits}
use comp_p.Auth.{is_empty}
use comp_p.Client.{max_response_len}
use comp_p.Client.Text.{drop_end, is_newline, strip_newline}

module _ (drops : ℕ → Bool) where
  pub drop_end-last :
      (s : Bytes) (c : ℕ)
      → All (λ x. drops x ≡ false) s
      → drops c ≡ true
      → drop_end drops (s ++ (c ∷ [])) ≡ s
  unfolding drop_end is_empty
  drop_end-last [] c h d = rw d refl
  drop_end-last (x ∷ s) c h d = rw (drop_end-last s c h.1 d) (keep (is_empty s))
    where
      keep : (b : Bool) → (if b && drops x then [] else x ∷ s) ≡ x ∷ s
      keep true = rw h.0 refl
      keep false = refl

  drop_end-none : (s : Bytes) → All (λ x. drops x ≡ false) s → drop_end drops s ≡ s
  unfolding drop_end
  drop_end-none [] h = refl
  drop_end-none (x ∷ s) h = rw (drop_end-none s h.1) (keep (is_empty s))
    where
      keep : (b : Bool) → (if b && drops x then [] else x ∷ s) ≡ x ∷ s
      keep true = rw h.0 refl
      keep false = refl

  -- A text that ends with bytes to keep is kept.
  pub drop_end-append :
      (s : Bytes) (c : ℕ) (t : Bytes)
      → All (λ x. drops x ≡ false) (c ∷ t)
      → drop_end drops (s ++ c ∷ t) ≡ s ++ c ∷ t
  unfolding drop_end is_empty
  drop_end-append [] c t h = drop_end-none (c ∷ t) h
  drop_end-append (x ∷ []) c t h = rw (drop_end-append [] c t h) refl
  drop_end-append (x ∷ y ∷ s) c t h = rw (drop_end-append (y ∷ s) c t h) refl

-- The last token of a text.
pub strtok-last :
    (delim : ℕ → Bool) (c : ℕ) (t : Bytes)
    → All (λ x. delim x ≡ false) (c ∷ t)
    → strtok delim (c ∷ t) ≡ some (c ∷ t, [])
unfolding strtok skip_delims
strtok-last delim c t h = rw (h.0, strtok, skip_delims) (ap some (part (c ∷ t) h))
  where
    part : (s : Bytes) → All (λ x. delim x ≡ false) s → token_part delim s ≡ (s, [])
    part [] k = unfold token_part in refl
    part (x ∷ s) k = unfold token_part in rw (k.0, part s k.1) refl

-- A byte that may stand in a response before its newline.
abbrev pub IsText : ℕ → Type 0
IsText c = (c ≢ 0) × (is_newline c ≡ false)

c_str-text : (s : Bytes) → All IsText s → c_str (s ++ (10 ∷ [])) ≡ s ++ (10 ∷ [])
unfolding c_str
c_str-text [] h = refl
c_str-text (c ∷ s) h = ground (arith, c_str-text s h.1)

-- The copy has room for the whole line.
pub copy_lem :
    (s : Bytes)
    → All IsText s
    → length s + 1 < max_response_len
    → strip_newline (strncpy (max_response_len - 1) (s ++ (10 ∷ []))) ≡ s
unfolding strip_newline strncpy
copy_lem s h short =
    ap (λ t. drop_end is_newline (take (max_response_len - 1) t)) (c_str-text s h)
    ∙ (ap (drop_end is_newline) (
          take-all (max_response_len - 1) (s ++ (10 ∷ []))
            (omega (arith, length-append s (10 ∷ []))))
        ∙ drop_end-last is_newline s 10 (All-map _ _ (λ x k. k.1) s h) (unfold is_newline in refl))

digit-IsText : (c : ℕ) → is_digit c ≡ true → IsText c
unfolding is_digit is_newline
digit-IsText c h = ground arith

pub show_ℕ-IsText : (n : ℕ) → All IsText (show_ℕ n)
show_ℕ-IsText n = All-map _ _ digit-IsText (show_ℕ n) (show_ℕ-AllDigits n)

pub show_ℤ-IsText : (z : ℤ) → All IsText (show_ℤ z)
unfolding show_ℤ is_newline
show_ℤ-IsText (pos n) = show_ℕ-IsText n
show_ℤ-IsText (negsuc n) = (((λ e. omega (arith, e)), refl), show_ℕ-IsText (suc n))
