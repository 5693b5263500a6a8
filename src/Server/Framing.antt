-- ===== src/Server/Framing.antt =====
-- process_buffered_lines: the bytes that a client has sent, cut into requests.
use comp_p.Common.{List, [], ◌∷◌, ◌++◌, ◌==◌, if◌then◌else◌, Bytes, length}
use comp_p.Server.{client_read_buffer}

-- The loop over the buffer. `line` holds the bytes from `start` up to here.
unfoldable pub cut_lines : Bytes → Bytes → List Bytes × Bytes
cut_lines line [] = ([], line)
cut_lines line (c ∷ s) =
    let (lines, rest) = cut_lines [] s in
    let longer = cut_lines (line ++ (c ∷ [])) s in
    if c == 10 then ((line ++ (c ∷ [])) ∷ lines, rest) else longer

-- The lines that are submitted, and what stays in the buffer. A full buffer is submitted as it is.
unfoldable pub process_buffered_lines : Bytes → List Bytes × Bytes
process_buffered_lines buffer =
    let (lines, rest) = cut_lines [] buffer in
    if length rest == client_read_buffer then (lines ++ (rest ∷ []), []) else (lines, rest)

-- One read after another: each adds its bytes to the buffer.
unfoldable pub process_reads : Bytes → List Bytes → List Bytes × Bytes
process_reads buffer [] = ([], buffer)
process_reads buffer (chunk ∷ chunks) =
    let (lines, rest) = process_buffered_lines (buffer ++ chunk) in
    let (more, final) = process_reads rest chunks in (lines ++ more, final)
