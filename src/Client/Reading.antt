-- ===== src/Client/Reading.antt =====
-- client_main.c, read_response_line on any sequence of results of read.
use comp_p.Common.{
  ℕ, ◌+◌, ◌≤◌, ◌<◌, ◌≡◌, ◌≢◌, refl, ap, true, inl, inr, List, [], ◌∷◌, ◌++◌, ◌==◌, leb, ==_iff,
  Bytes, All, All-append, length, length-append, Bool-cases, arith,
}
use mathlib.Core.List.{append_assoc}
use comp_p.Auth.{is_empty}
use comp_p.CString.Calls.{ReadByte, byte, closed, eintr, broken, bytes_of}
use comp_p.Client.Io.{LineRead, finish, read_loop, read_response_line}
use comp_p.Client.Pieces.{IsPiece, line, part, ne_of_==_false}

-- What a call with a buffer of `len` bytes leaves of the bytes in `calls`.
pub record IsRead (len : ℕ) (bytes : Bytes) (r : LineRead) : Type 0 where
  pub fits : length r.text + 1 ≤ len
  pub kept : r.text ++ bytes_of r.calls ≡ bytes
  pub piece : IsPiece r.text
  pub found : r.succeeds ≡ true → r.text ≢ []

module _ (len : ℕ) where
  IsRead-finish :
      (text : Bytes) (calls : List ReadByte) (bytes : Bytes)
      → length text + 1 ≤ len
      → All (λ c. c ≢ 10) text
      → text ++ bytes_of calls ≡ bytes
      → IsRead len bytes (finish text calls)
  unfolding is_empty
  IsRead-finish [] calls bytes fits h e = record {
    fits = fits;
    kept = e;
    piece = part tt;
    found = λ f. cc f;
  }
  IsRead-finish (c ∷ text) calls bytes fits h e = record {
    fits = fits;
    kept = e;
    piece = part h;
    found = λ f e. cc e;
  }

  append-shift : (text : Bytes) (c : ℕ) (s : Bytes) → (text ++ (c ∷ [])) ++ s ≡ text ++ c ∷ s
  append-shift text c s = append_assoc text (c ∷ []) s

  read_loop-IsRead :
      (text : Bytes) (calls : List ReadByte)
      → length text + 1 ≤ len
      → All (λ c. c ≢ 10) text
      → IsRead len (text ++ bytes_of calls) (read_loop len text calls)
  unfolding read_loop bytes_of
  read_loop-IsRead text [] fits h = IsRead-finish text [] _ fits h refl
  read_loop-IsRead text (byte c ∷ calls) fits h = elim (Bool-cases (leb len (length text + 1))) [
    | inl full ↦ rw (full, read_loop) (IsRead-finish text (byte c ∷ calls) _ fits h refl)
    | inr room ↦
        let fits' : length (text ++ (c ∷ [])) + 1 ≤ len =
          ground (arith, room, length-append text (c ∷ [])) in
        elim (Bool-cases (c == 10)) [
          | inl end ↦
              rw (room, end, read_loop)
                (record {
                  fits = fits';
                  kept = append-shift text c (bytes_of calls);
                  piece = line text h (ap (λ d. text ++ (d ∷ [])) ((==_iff c 10).0 end));
                  found = λ f. not_empty text;
                })
          | inr other ↦
              rw (room, other, read_loop, ← append-shift text c (bytes_of calls))
                (read_loop-IsRead (text ++ (c ∷ [])) calls fits'
                  (All-append _ text (c ∷ []) h (ne_of_==_false c 10 other, tt)))
        ]
  ]
    where
      not_empty : (t : Bytes) → t ++ (c ∷ []) ≢ []
      not_empty [] e = cc e
      not_empty (x ∷ t) e = cc e
  read_loop-IsRead text (closed ∷ calls) fits h = elim (Bool-cases (leb len (length text + 1))) [
    | inl full ↦ rw (full, read_loop) (IsRead-finish text (closed ∷ calls) _ fits h refl)
    | inr room ↦ rw (room, read_loop) (IsRead-finish text calls _ fits h refl)
  ]
  read_loop-IsRead text (eintr ∷ calls) fits h = elim (Bool-cases (leb len (length text + 1))) [
    | inl full ↦ rw (full, read_loop) (IsRead-finish text (eintr ∷ calls) _ fits h refl)
    | inr room ↦ rw (room, read_loop) (read_loop-IsRead text calls fits h)
  ]
  read_loop-IsRead text (broken ∷ calls) fits h = elim (Bool-cases (leb len (length text + 1))) [
    | inl full ↦ rw (full, read_loop) (IsRead-finish text (broken ∷ calls) _ fits h refl)
    | inr room ↦
        rw (room, read_loop)
          (record { fits = fits; kept = refl; piece = part h; found = λ f. cc f })
  ]

  -- Whatever the calls of read return, a buffer of `len` bytes, at least one, has room for the text
  -- and its NUL; the text and the bytes of the calls that are still to come are the bytes of all
  -- calls, in order; a newline stands only at the text's end; and a successful call has read a
  -- byte.
  pub read_response_line-IsRead :
      (calls : List ReadByte) → 0 < len → IsRead len (bytes_of calls) (read_response_line len calls)
  unfolding read_response_line
  read_response_line-IsRead calls pos = read_loop-IsRead [] calls (omega arith) tt

-- The calls of read deliver these bytes, interrupted any number of times before each of them, and
-- then go on with `rest`.
pub data Delivers (rest : List ReadByte) : Bytes → List ReadByte → Type 0 where
  last : (c : ℕ) → Delivers rest (c ∷ []) (byte c ∷ rest)
  next :
      (c : ℕ) {s : Bytes} {calls : List ReadByte}
      → Delivers rest s calls
      → Delivers rest (c ∷ s) (byte c ∷ calls)
  again :
      {s : Bytes} {calls : List ReadByte} → Delivers rest s calls → Delivers rest s (eintr ∷ calls)

not-Delivers-nil :
    (rest : List ReadByte) {s : Bytes} {calls : List ReadByte} → Delivers rest s calls → s ≢ []
not-Delivers-nil rest (last c) e = cc e
not-Delivers-nil rest (next c d) e = cc e
not-Delivers-nil rest (again d) e = not-Delivers-nil rest d e

module _ (len : ℕ) (rest : List ReadByte) where
  read_loop-line :
      (text body : Bytes) {s : Bytes} {calls : List ReadByte}
      → Delivers rest s calls
      → s ≡ body ++ (10 ∷ [])
      → All (λ c. c ≢ 10) body
      → length text + length body + 2 ≤ len
      → read_loop len text calls
        ≡ record { succeeds = true; text = text ++ (body ++ (10 ∷ [])); calls = rest }
  unfolding read_loop
  read_loop-line text [] (last c) e h fits = ground arith
  read_loop-line text (b ∷ []) (last c) e h fits = cc e
  read_loop-line text (b ∷ b' ∷ body) (last c) e h fits = cc e
  read_loop-line text [] (next c d) e h fits = absurd (not-Delivers-nil rest d (cc e))
  read_loop-line text (b ∷ body) (next c {s} {calls} d) e h fits = ground (
    arith,
    ==_iff c 10,
    h.0,
    append_assoc text (c ∷ []) (body ++ (10 ∷ [])),
    read_loop-line (text ++ (c ∷ [])) body d (cc e) h.1
        (omega (arith, length-append text (c ∷ []))),
  )
  read_loop-line text body (again {s} {calls} d) e h fits =
      ground (arith, read_loop-line text body d e h fits)

  -- A line that is delivered whole, however the calls of read are interrupted, and fits in a buffer
  -- of `len` bytes with its newline and the NUL is read whole, and what follows it is left to the
  -- next call.
  pub read_response_line_lem :
      (body : Bytes) {calls : List ReadByte}
      → Delivers rest (body ++ (10 ∷ [])) calls
      → All (λ c. c ≢ 10) body
      → length body + 2 ≤ len
      → read_response_line len calls
        ≡ record { succeeds = true; text = body ++ (10 ∷ []); calls = rest }
  unfolding read_response_line
  read_response_line_lem body d h fits = read_loop-line [] body d refl h (omega arith)
