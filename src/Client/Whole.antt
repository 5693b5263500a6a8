-- ===== src/Client/Whole.antt =====
-- client_main.c, main: the lines that fgets and the newline at their end make of the input.
use comp_p.Common.{
  ◌+◌, ◌≤◌, ◌<◌, ◌≡◌, ◌≢◌, refl, sym, subst, ◌∙◌, true, false, [], ◌∷◌, ◌++◌, ◌==◌, leb,
  if◌then◌else◌, Bytes, All, All-front, length, length-append, arith,
}
use comp_p.CString.{c_str}
use comp_p.Client.{max_input_len}
use comp_p.Client.Pieces.{IsPiece, line, part, c_str-IsPiece, c_str-no_nul, length-c_str}
use comp_p.Client.Loop.{empty, too_long, whole, input_line, ends_line}

-- A line as main makes it: whole, without NUL, with room in the buffer.
pub record IsWhole (text : Bytes) : Type 0 where
  pub body : Bytes
  pub ends : text ≡ body ++ (10 ∷ [])
  pub no_nul : All (λ c. c ≢ 0) body
  pub no_newline : All (λ c. c ≢ 10) body
  pub fits : length text + 1 ≤ max_input_len

ends_line-append : (s : Bytes) → ends_line (s ++ (10 ∷ [])) ≡ true
unfolding ends_line
ends_line-append [] = refl
ends_line-append (c ∷ []) = refl
ends_line-append (c ∷ d ∷ s) = ends_line-append (d ∷ s)

pub ends_line-part : (s : Bytes) → All (λ c. c ≢ 10) s → ends_line s ≡ false
unfolding ends_line
ends_line-part [] h = refl
ends_line-part (c ∷ []) h = ground arith
ends_line-part (c ∷ d ∷ s) h = ends_line-part (d ∷ s) h.1

whole_eq : {a b : Bytes} → whole a ≡ whole b → a ≡ b
whole_eq e = cc e

-- A buffer that fgets has filled gives a whole line, if it gives one.
pub input_line-IsWhole :
    (buffer text : Bytes)
    → IsPiece buffer
    → length buffer + 1 ≤ max_input_len
    → input_line buffer ≡ whole text
    → IsWhole text
unfolding input_line
input_line-IsWhole buffer text p fits e =
    cases (c_str buffer) (c_str-IsPiece buffer p) (c_str-no_nul buffer)
      (omega (arith, length-c_str buffer)) e
  where
    cases :
        (s : Bytes)
        → IsPiece s
        → All (λ c. c ≢ 0) s
        → length s + 1 ≤ max_input_len
        → (if length s == 0
            then empty
            else if ends_line s
            then whole s
            else if leb max_input_len (length s + 1)
            then too_long
            else whole (s ++ (10 ∷ [])))
          ≡ whole text
        → IsWhole text
    cases s (line body h q) no_nul fits e =
        let ends : ends_line s ≡ true =
          subst (λ t. ends_line t ≡ true) (sym q) (ends_line-append body) in
        let same : s ≡ text = ground arith in
        record {
          body = body;
          ends = sym same ∙ q;
          no_nul = All-front (λ c. c ≢ 0) body (10 ∷ []) (subst (All (λ c. c ≢ 0)) q no_nul);
          no_newline = h;
          fits = subst (λ t. length t + 1 ≤ max_input_len) same fits;
        }
    cases s (part h) no_nul fits e =
        let off : ends_line s ≡ false = ends_line-part s h in
        let same : s ++ (10 ∷ []) ≡ text = ground arith in
        let room : length s + 1 < max_input_len = ground arith in
        record {
          body = s;
          ends = sym same;
          no_nul = no_nul;
          no_newline = h;
          fits =
              subst (λ t. length t + 1 ≤ max_input_len) same
                (omega (arith, length-append s (10 ∷ [])));
        }
