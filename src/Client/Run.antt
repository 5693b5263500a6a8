-- ===== src/Client/Run.antt =====
-- client_main.c, main: the loop over the whole input, and the Disconnect at its end.
use comp_p.Common.{
  ℕ, zero, suc, true, false, not, ◌||◌, List, [], ◌∷◌, ◌++◌, Option, none, some, if◌then◌else◌,
  Bytes, codes, str_eq, length,
}
use comp_p.CString.Calls.{Write, ReadByte}
use comp_p.CString.Stream.{fgets}
use comp_p.Client.{Session, Turn, new_session, max_input_len, max_response_len}
use comp_p.Client.Io.{write_all, read_response_line, response_of}
use comp_p.Client.Display.{puts}
use comp_p.Client.Loop.{
  Verdict, ignore, refuse, send, judge, quiet, handle_line, Input, empty, too_long, whole,
  input_line, skip_line,
}

-- What is left of the input and of the calls on the two FIFOs.
pub record Pipes : Type 0 where
  pub stdin : Bytes
  pub writes : List Write
  pub reads : List ReadByte

-- One round of the loop: what it does, the bytes that it puts on the FIFO, and what it leaves.
pub record Round : Type 0 where
  pub turn : Turn
  pub wire : Bytes
  pub pipes : Pipes

-- After a line that is sent, the response is read, unless it is a Disconnect.
unfoldable pub advance : Verdict → Bytes → Pipes → Bytes × Pipes
advance ignore line p = ([], p)
advance refuse line p = ([], p)
advance (send command) line p =
    let (out, ok, writes) = write_all p.writes line in
    let r = read_response_line max_response_len p.reads in
    let reads = if not ok || str_eq command (codes "Disconnect") then p.reads else r.calls in
    (out, record p { writes = writes; reads = reads })

unfoldable pub line_round : Bytes → Pipes → Session → Round
line_round line p s =
    let (out, ok, writes) = write_all p.writes line in
    let response = response_of (read_response_line max_response_len p.reads) in
    let (wire, p') = advance (judge line s) line p in
    record { turn = handle_line ok response line s; wire = wire; pipes = p' }

unfoldable pub input_round : Input → Pipes → Session → Round
input_round empty p s = record { turn = quiet [] true s; wire = []; pipes = p }
input_round too_long p s = record {
  turn = record { printed = puts (codes "Value error"); sent = []; goes_on = true; session = s };
  wire = [];
  pipes = record p { stdin = skip_line p.stdin };
}
input_round (whole line) p s = line_round line p s

-- A line from fgets, and the rest of the input.
unfoldable pub client_round : Bytes → Bytes → Pipes → Session → Round
client_round buffer rest p s = input_round (input_line buffer) (record p { stdin = rest }) s

-- The rounds of the loop, in order, and the session and the calls at its end.
pub record Ran : Type 0 where
  pub turns : List Turn
  pub wire : Bytes
  pub session : Session
  pub pipes : Pipes

abbrev pub before : Round → Ran → Ran
before r ran = record ran { turns = r.turn ∷ ran.turns; wire = r.wire ++ ran.wire }

abbrev pub only : Round → Ran
only r = record { turns = r.turn ∷ []; wire = r.wire; session = r.turn.session; pipes = r.pipes }

-- The loop, on fuel: `none` means that the fuel ran out.
unfoldable pub client_loop : ℕ → Pipes → Session → Option Ran
client_loop zero p s = none
client_loop (suc fuel) p s = elim (fgets max_input_len p.stdin) [
  | none ↦ some (record { turns = []; wire = []; session = s; pipes = p })
  | some (buffer, rest) ↦
      let r = client_round buffer rest p s in
      elim r.turn.goes_on [
        | false ↦ some (only r)
        | true ↦ elim (client_loop fuel r.pipes r.turn.session) [
          | none ↦ none
          | some ran ↦ some (before r ran)
        ]
      ]
]

abbrev pub disconnect_msg : Bytes
disconnect_msg = codes "Disconnect" ++ (10 ∷ [])

-- After the loop: the bytes of the last message, if it is sent at all. The response to it is read
-- and dropped.
unfoldable pub end_session : Ran → Ran
end_session ran =
    let (out, ok, writes) = write_all ran.pipes.writes disconnect_msg in
    let r = read_response_line max_response_len ran.pipes.reads in
    if ran.session.sent_disconnect then ran else record ran {
      wire = ran.wire ++ out;
      pipes = record ran.pipes { writes = writes; reads = if ok then r.calls else ran.pipes.reads };
    }

-- main with both FIFOs open. A round reads a byte of the input at least.
unfoldable pub client_session : Pipes → Option Ran
client_session p = elim (client_loop (suc (length p.stdin)) p new_session) [
  | none ↦ none
  | some ran ↦ some (end_session ran)
]
