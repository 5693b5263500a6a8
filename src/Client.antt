-- ===== src/Client.antt =====
-- client_main.c: the client program, which sends each line of its input to the server and shows the
-- response. Its debug output on stderr is left out.
pub mod Text
pub mod Display
pub mod Copies
pub mod Loop
pub mod Io
pub mod Run
pub mod Start
pub mod Rounds
pub mod Whole
pub mod Dialogue
pub mod Conversation
pub mod Farewell
pub mod Pieces
pub mod Reading
pub mod Shown
pub mod Balance
pub mod Tests
use comp_p.Common.{ℕ, Bool, false, [], Bytes}

-- What main keeps between two lines.
pub record Session : Type 0 where
  pub logged_in : Bool
  pub sent_disconnect : Bool
  pub current_username : Bytes

abbrev pub new_session : Session
new_session = record { logged_in = false; sent_disconnect = false; current_username = [] }

-- A line of the input has been dealt with: what was printed and sent, and whether the loop goes on.
pub record Turn : Type 0 where
  pub printed : Bytes
  pub sent : Bytes
  pub goes_on : Bool
  pub session : Session

abbrev pub max_input_len : ℕ
max_input_len = 4096

abbrev pub max_response_len : ℕ
max_response_len = 4096
