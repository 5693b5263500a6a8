-- ===== src/Server.antt =====
-- server_main.c: the loop of the main thread, which accepts clients, reads their lines and closes
-- them.
pub mod Framing
pub mod Numbering
pub mod Clients
pub mod Stream
pub mod Accept
pub mod Close
pub mod Main
pub mod Descriptors
pub mod Keeping
pub mod Start
pub mod Boot
pub mod Tests
use comp_p.Common.{ℕ, List, Bytes}
use comp_p.ServerCommon.{ClientState}

abbrev pub client_read_buffer : ℕ
client_read_buffer = 4096

-- The bytes of the buffer up to read_len.
pub record ServerClient : Type 0 where
  pub state : ClientState
  pub read_buffer : Bytes
