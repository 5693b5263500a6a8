-- ===== src/Server/Stream.antt =====
-- server_main.c, process_buffered_lines beside a specification on the stream of a client's bytes.
use mathlib.Core.List.{append-nil, append_assoc}
use comp_p.Common.{
  ◌+◌, ◌<◌, ◌≤◌, ◌≡◌, ◌≢◌, refl, sym, ap, ◌∙◌, subst, Bool, true, false, ◌||◌, List, [], ◌∷◌, ◌++◌,
  ◌==◌, if◌then◌else◌, Bytes, length, length-append, Bool-cases, inl, inr, arith,
}
use comp_p.Server.{client_read_buffer}
use comp_p.Server.Framing.{cut_lines, process_buffered_lines, process_reads}

-- The specification, byte by byte: a request ends at a newline, or when it has 4096 bytes.
unfoldable pub frames : Bytes → Bytes → List Bytes × Bytes
frames line [] = ([], line)
frames line (c ∷ s) =
    let (lines, rest) = frames [] s in
    let longer = frames (line ++ (c ∷ [])) s in
    if c == 10 || length (line ++ (c ∷ [])) == client_read_buffer
    then ((line ++ (c ∷ [])) ∷ lines, rest)
    else longer

abbrev pub finish : List Bytes × Bytes → List Bytes × Bytes
finish (lines, rest) =
    if length rest == client_read_buffer then (lines ++ (rest ∷ []), []) else (lines, rest)

abbrev pub cons_line : Bytes → List Bytes × Bytes → List Bytes × Bytes
cons_line line (lines, rest) = (line ∷ lines, rest)

finish-cons :
    (line : Bytes) (p : List Bytes × Bytes) → finish (cons_line line p) ≡ cons_line line (finish p)
finish-cons line (lines, rest) = keep (length rest == client_read_buffer)
  where
    keep :
        (b : Bool)
        → (if b then (line ∷ lines ++ (rest ∷ []), []) else (line ∷ lines, rest))
          ≡ cons_line line (if b then (lines ++ (rest ∷ []), []) else (lines, rest))
    keep true = refl
    keep false = refl

-- A full buffer is one request.
full_line :
    (line s : Bytes)
    → length line ≡ client_read_buffer
    → length s ≡ 0
    → finish (cut_lines line s) ≡ cons_line line (frames [] s)
unfolding cut_lines frames
full_line line [] full none_left = ground arith
full_line line (c ∷ s) full none_left = absurd (omega arith)

-- On a buffer that is not longer than 4096 bytes, the code does what the specification says.
cut-frames :
    (line s : Bytes)
    → length line < client_read_buffer
    → length line + length s ≤ client_read_buffer
    → finish (cut_lines line s) ≡ frames line s
unfolding cut_lines frames
cut-frames line [] short fits = ground arith
cut-frames line (c ∷ s) short fits = elim (Bool-cases (c == 10)) [
  | inl newline ↦ rw newline (
      finish-cons (line ++ (c ∷ [])) (cut_lines [] s)
      ∙ ap (cons_line (line ++ (c ∷ []))) (cut-frames [] s (omega arith) (omega arith)))
  | inr other ↦ elim (Bool-cases (length (line ++ (c ∷ [])) == client_read_buffer)) [
    | inl full ↦
        rw (other, full, cut_lines, frames)
          (full_line (line ++ (c ∷ [])) s (ground arith)
            (omega (arith, length-append line (c ∷ []), full_length full)))
    | inr room ↦
        rw (other, room, cut_lines, frames)
          (cut-frames (line ++ (c ∷ [])) s
            (omega (arith, length-append line (c ∷ []), room_length room))
            (omega (arith, length-append line (c ∷ []))))
  ]
]
  where
    full_length :
        (length (line ++ (c ∷ [])) == client_read_buffer) ≡ true
        → length (line ++ (c ∷ [])) ≡ client_read_buffer
    full_length e = ground arith

    room_length :
        (length (line ++ (c ∷ [])) == client_read_buffer) ≡ false
        → length (line ++ (c ∷ [])) ≢ client_read_buffer
    room_length e = ground arith

frames-append :
    (line s t : Bytes)
    → frames line (s ++ t)
      ≡ ((frames line s).0 ++ (frames (frames line s).1 t).0, (frames (frames line s).1 t).1)
unfolding frames
frames-append line [] t = refl
frames-append line (c ∷ s) t =
    elim (Bool-cases (c == 10 || length (line ++ (c ∷ [])) == client_read_buffer)) [
      | inl ends ↦ rw (ends, frames-append [] s t) refl
      | inr more ↦ rw (more, frames-append (line ++ (c ∷ [])) s t) refl
    ]

-- The buffer holds the start of a request.
abbrev pub IsPending : Bytes → Type 0
IsPending buffer = frames [] buffer ≡ ([], buffer)

frames-IsPending : (line s : Bytes) → IsPending line → IsPending (frames line s).1
unfolding frames
frames-IsPending line [] h = h
frames-IsPending line (c ∷ s) h =
    elim (Bool-cases (c == 10 || length (line ++ (c ∷ [])) == client_read_buffer)) [
      | inl ends ↦ rw (ends, frames) (frames-IsPending [] s refl)
      | inr more ↦
          rw (more, frames)
            (frames-IsPending (line ++ (c ∷ [])) s
              (frames-append [] line (c ∷ []) ∙ rw (h, more, frames) refl))
    ]

-- Each read takes at most the bytes for which the buffer has room.
abbrev pub Fits : Bytes → List Bytes → Type 0
Fits buffer [] = Unit {0}
Fits buffer (chunk ∷ chunks) =
    (length buffer + length chunk ≤ client_read_buffer)
    × Fits (process_buffered_lines (buffer ++ chunk)).1 chunks

abbrev pub join : List Bytes → Bytes
join [] = []
join (x ∷ xs) = x ++ join xs

process-frames :
    (buffer chunk : Bytes)
    → length buffer + length chunk ≤ client_read_buffer
    → IsPending buffer
    → process_buffered_lines (buffer ++ chunk) ≡ frames buffer chunk
unfolding process_buffered_lines
process-frames buffer chunk fits h =
    cut-frames [] (buffer ++ chunk) (omega arith) (omega (arith, length-append buffer chunk))
    ∙ (frames-append [] buffer chunk ∙ rw h refl)

reads-frames :
    (buffer : Bytes) (chunks : List Bytes)
    → IsPending buffer
    → Fits buffer chunks
    → process_reads buffer chunks ≡ frames buffer (join chunks)
unfolding process_reads
reads-frames buffer [] h fits = unfold frames in refl
reads-frames buffer (chunk ∷ chunks) h fits =
    let same = process-frames buffer chunk fits.0 h in
    let later : Fits (frames buffer chunk).1 chunks = subst (λ p. Fits p.1 chunks) same fits.1 in
    rw (same, reads-frames (frames buffer chunk).1 chunks (frames-IsPending buffer chunk h) later)
      (sym (frames-append buffer chunk (join chunks)))

-- However the bytes of a client are split over the reads, each at most as long as the room in the
-- buffer, the requests that the main thread submits and the bytes that it keeps are those of the
-- byte-by-byte specification on the whole input: a request ends at a newline, or at 4096 bytes.
pub process_reads-frames :
    (chunks : List Bytes) → Fits [] chunks → process_reads [] chunks ≡ frames [] (join chunks)
process_reads-frames chunks fits = reads-frames [] chunks (unfold frames in refl) fits

frames-whole : (line s : Bytes) → join (frames line s).0 ++ (frames line s).1 ≡ line ++ s
unfolding frames
frames-whole line [] = sym (append-nil line)
frames-whole line (c ∷ s) =
    elim (Bool-cases (c == 10 || length (line ++ (c ∷ [])) == client_read_buffer)) [
      | inl ends ↦
          rw (ends, frames)
            (append_assoc (line ++ (c ∷ [])) (join (frames [] s).0) (frames [] s).1
              ∙ (ap (λ t. (line ++ (c ∷ [])) ++ t) (frames-whole [] s)
                  ∙ append_assoc line (c ∷ []) s))
      | inr more ↦
          rw (more, frames) (frames-whole (line ++ (c ∷ [])) s ∙ append_assoc line (c ∷ []) s)
    ]

-- If each read is at most as long as the room in the buffer, no byte is lost, added or moved: the
-- requests one after another, with what stays in the buffer, are the bytes that were read.
pub process_reads_whole :
    (chunks : List Bytes)
    → Fits [] chunks
    → join (process_reads [] chunks).0 ++ (process_reads [] chunks).1 ≡ join chunks
process_reads_whole chunks fits =
    rw (process_reads-frames chunks fits) (frames-whole [] (join chunks))
