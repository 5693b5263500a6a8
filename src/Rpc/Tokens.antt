-- ===== src/Rpc/Tokens.antt =====
-- rpc.c, tokenize on lines of words.
use comp_p.Common.{
  ℕ, zero, suc, ◌≤◌, ◌≡◌, ◌≢◌, refl, ap, ◌∙◌, true, false, List, [], ◌∷◌, ◌++◌, some, Bytes, All,
  length, arith,
}
use comp_p.CString.{c_str, skip_delims, token_part, strtok, is_delim}
use comp_p.Rpc.Text.{newline, tokens_upto, max_tokens, tokenize}

-- A byte that stands in a token: not NUL, and not a delimiter.
abbrev pub IsInner : ℕ → Type 0
IsInner c = (c ≢ 0) × (is_delim c ≡ false)

abbrev pub IsWord : Bytes → Type 0
IsWord [] = ⊥
IsWord (c ∷ s) = All IsInner (c ∷ s)

-- The words with one blank between each two, and a newline at the end.
unfoldable pub line_of : Bytes → List Bytes → Bytes
line_of w [] = w ++ (newline ∷ [])
line_of w (x ∷ xs) = w ++ 32 ∷ line_of x xs

token_part-word :
    (w rest : Bytes) (d : ℕ)
    → All IsInner w
    → is_delim d ≡ true
    → token_part is_delim (w ++ d ∷ rest) ≡ (w, rest)
unfolding token_part
token_part-word [] rest d h e = rw e refl
token_part-word (c ∷ w) rest d h e = rw (h.0.1, token_part-word w rest d h.1 e) refl

pub strtok-word :
    (w rest : Bytes) (d : ℕ)
    → IsWord w
    → is_delim d ≡ true
    → strtok is_delim (w ++ d ∷ rest) ≡ some (w, rest)
unfolding strtok skip_delims
strtok-word [] rest d h e = absurd h
strtok-word (c ∷ w) rest d h e =
    rw (h.0.1, strtok, skip_delims) (ap some (token_part-word (c ∷ w) rest d h e))

c_str-word : (w s : Bytes) → All (λ c. c ≢ 0) w → c_str (w ++ s) ≡ w ++ c_str s
unfolding c_str
c_str-word [] s h = refl
c_str-word (c ∷ w) s h = ground (arith, c_str-word w s h.1)

no_nul : (w : Bytes) → All IsInner w → All (λ c. c ≢ 0) w
no_nul [] h = tt
no_nul (c ∷ w) h = (h.0.0, no_nul w h.1)

word-IsInner : (w : Bytes) → IsWord w → All IsInner w
word-IsInner [] h = absurd h
word-IsInner (c ∷ w) h = h

pub c_str-line_of :
    (w : Bytes) (ws : List Bytes) → All IsWord (w ∷ ws) → c_str (line_of w ws) ≡ line_of w ws
unfolding line_of c_str
c_str-line_of w [] h = c_str-word w (newline ∷ []) (no_nul w (word-IsInner w h.0))
c_str-line_of w (x ∷ xs) h =
    c_str-word w (32 ∷ line_of x xs) (no_nul w (word-IsInner w h.0))
    ∙ ap (λ s. w ++ 32 ∷ s) (c_str-line_of x xs h.1)

tokens_upto-nil : (n : ℕ) → tokens_upto n [] ≡ some []
unfolding tokens_upto strtok skip_delims
tokens_upto-nil zero = refl
tokens_upto-nil (suc n) = refl

tokens_upto-line_of :
    (n : ℕ) (w : Bytes) (ws : List Bytes)
    → length (w ∷ ws) ≤ n
    → All IsWord (w ∷ ws)
    → tokens_upto n (line_of w ws) ≡ some (w ∷ ws)
unfolding tokens_upto line_of
tokens_upto-line_of zero w ws short h = absurd (omega arith)
tokens_upto-line_of (suc n) w [] short h =
    rw (strtok-word w [] newline h.0 (unfold is_delim in refl), tokens_upto-nil n, tokens_upto) refl
tokens_upto-line_of (suc n) w (x ∷ xs) short h =
    rw
      (
        strtok-word w (line_of x xs) 32 h.0 (unfold is_delim in refl),
        tokens_upto-line_of n x xs (omega arith) h.1,
        tokens_upto,
      )
      refl

-- A line of at most 16 words, separated by single blanks and ended by a newline, is read back as
-- its words; a word has no NUL and no delimiter in it.
pub tokenize-line_of :
    (w : Bytes) (ws : List Bytes)
    → length (w ∷ ws) ≤ max_tokens
    → All IsWord (w ∷ ws)
    → tokenize (line_of w ws) ≡ some (w ∷ ws)
unfolding tokenize
tokenize-line_of w ws short h =
    ap (tokens_upto max_tokens) (c_str-line_of w ws h) ∙ tokens_upto-line_of max_tokens w ws short h
