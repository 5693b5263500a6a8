-- ===== src/Client/Io.antt =====
-- client_main.c, write_all and read_response_line: the client's ends of the two FIFOs.
use comp_p.Common.{
  ℕ, zero, suc, ◌+◌, Bool, true, false, not, List, [], ◌∷◌, ◌++◌, Option, none, some, ◌==◌, leb,
  if◌then◌else◌, Bytes, length, take, drop,
}
use comp_p.Auth.{is_empty}
use comp_p.CString.Calls.{Write, interrupted, failed, wrote, ReadByte, byte, closed, eintr, broken}

-- The loop of write_all on the bytes that remain: the bytes that leave, whether all do, and the
-- calls of write that are still to come. After the last call every other one fails.
unfoldable pub write_all : List Write → Bytes → Bytes × Bool × List Write
write_all calls [] = ([], true, calls)
write_all [] (b ∷ bs) = ([], false, [])
write_all (interrupted ∷ calls) (b ∷ bs) = write_all calls (b ∷ bs)
write_all (failed ∷ calls) (b ∷ bs) = ([], false, calls)
write_all (wrote zero ∷ calls) (b ∷ bs) = ([], false, calls)
write_all (wrote (suc n) ∷ calls) (b ∷ bs) =
    let (out, ok, rest) = write_all calls (drop n bs) in (b ∷ take n bs ++ out, ok, rest)

-- What read_response_line leaves: whether it returns 0, the text before the NUL in the buffer, and
-- the calls of read that are still to come.
pub record LineRead : Type 0 where
  pub succeeds : Bool
  pub text : Bytes
  pub calls : List ReadByte

-- The NUL is written and the function returns.
abbrev pub finish : Bytes → List ReadByte → LineRead
finish text calls = record { succeeds = not (is_empty text); text = text; calls = calls }

-- The loop with `text` in the buffer of `len` bytes. After the last call the FIFO is closed.
unfoldable pub read_loop : ℕ → Bytes → List ReadByte → LineRead
read_loop len text [] = finish text []
read_loop len text (byte c ∷ calls) =
    let longer = text ++ (c ∷ []) in
    let more = read_loop len longer calls in
    if leb len (length text + 1)
    then finish text (byte c ∷ calls)
    else if c == 10
    then record { succeeds = true; text = longer; calls = calls }
    else more
read_loop len text (closed ∷ calls) =
    if leb len (length text + 1) then finish text (closed ∷ calls) else finish text calls
read_loop len text (eintr ∷ calls) =
    let more = read_loop len text calls in
    if leb len (length text + 1) then finish text (eintr ∷ calls) else more
read_loop len text (broken ∷ calls) =
    if leb len (length text + 1)
    then finish text (broken ∷ calls)
    else record { succeeds = false; text = text; calls = calls }

unfoldable pub read_response_line : ℕ → List ReadByte → LineRead
unfolding read_loop
read_response_line len calls = read_loop len [] calls

-- The response that the caller goes on with.
unfoldable pub response_of : LineRead → Option Bytes
response_of r = if r.succeeds then some r.text else none
