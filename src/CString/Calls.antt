-- ===== src/CString/Calls.antt =====
-- What the calls of read and write of the operating system do, one call after another.
use comp_p.Common.{ℕ, List, [], ◌∷◌, Bytes}

-- A call of write: EINTR, another error, or the number of bytes that it writes.
pub data Write : Type 0 where
  interrupted failed : Write
  wrote : ℕ → Write

-- A call of read for one byte: the byte, the end of the file, EINTR, or another error.
pub data ReadByte : Type 0 where
  byte : ℕ → ReadByte
  closed eintr broken : ReadByte

-- The bytes that such calls deliver.
unfoldable pub bytes_of : List ReadByte → Bytes
bytes_of [] = []
bytes_of (byte c ∷ calls) = c ∷ bytes_of calls
bytes_of (closed ∷ calls) = bytes_of calls
bytes_of (eintr ∷ calls) = bytes_of calls
bytes_of (broken ∷ calls) = bytes_of calls
