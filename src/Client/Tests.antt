-- ===== src/Client/Tests.antt =====
-- The client at concrete inputs.
use comp_p.Common.{
  leb, none, ◌≡◌, refl, true, false, List, [], ◌∷◌, ◌++◌, some, Bytes, codes, arith,
}
use comp_p.CString.Number.{strtoll, pos, negsuc}
use comp_p.CString.Decimal.{show_ℕ}
use comp_p.Rpc.Text.{
  response_i32, response_u64, response_code, response_generate, rpc_fail, rpc_value, rpc_internal,
}
use comp_p.CString.Calls.{interrupted, wrote, ReadByte, byte, eintr, bytes_of}
use comp_p.Auth.{is_empty}
use comp_p.Client.{new_session}
use comp_p.Client.Io.{read_response_line}
use comp_p.Client.Reading.{IsRead, read_response_line-IsRead}
use comp_p.Client.Run.{Pipes, Ran, disconnect_msg}
use comp_p.Client.Start.{Connecting, parse_arguments}
use comp_p.Client.Text.{parse_integer_reply}
use comp_p.Client.Shown.{IsShown, display_rpc_response_lem}
use comp_p.Client.Balance.{parse_integer_reply-response_i32}

parse_integer_reply-response_i32_example :
    parse_integer_reply (response_i32 (negsuc 41)) ≡ some (negsuc 41)
parse_integer_reply-response_i32_example =
    parse_integer_reply-response_i32 (negsuc 41) (omega arith)

abbrev bad_login : Bytes
bad_login = codes "Login no_such_name!" ++ (10 ∷ [])

display_rpc_response_lem_example :
    IsShown (response_u64 12) (codes "Success " ++ show_ℕ 12)
    × (IsShown (response_code (pos 0)) (codes "Success")
        × IsShown (response_code rpc_fail) (codes "RPC Failed")
        × IsShown (response_code rpc_value) (codes "Value error")
        × IsShown (response_code rpc_internal) (codes "Internal error"))
    × (IsShown (response_generate (pos 0) (pos 0)) (codes "Success")
        × IsShown (response_generate (negsuc 0) (pos 0)) (codes "Data write failed")
        × IsShown (response_generate (pos 0) (negsuc 0)) (codes "Movie write failed"))
display_rpc_response_lem_example = display_rpc_response_lem 12 (λ e. omega (arith, e)) (omega arith)

-- A command before the login, and a Disconnect that leaves in two parts.
abbrev two_lines : Pipes
two_lines = record {
  stdin = codes "create_canvas" ++ (10 ∷ (codes "Disconnect" ++ (10 ∷ [])));
  writes = wrote 4 ∷ interrupted ∷ wrote 7 ∷ [];
  reads = [];
}

abbrev two_turns : Ran
two_turns = record {
  turns =
      record {
        printed = codes "Not logged in" ++ (10 ∷ []);
        sent = [];
        goes_on = true;
        session = new_session;
      }
      ∷ record {
        printed = [];
        sent = disconnect_msg;
        goes_on = false;
        session = record new_session { sent_disconnect = true };
      }
      ∷ [];
  wire = disconnect_msg;
  session = record new_session { sent_disconnect = true };
  pipes = record { stdin = []; writes = []; reads = [] };
}

abbrev reachable : Connecting
reachable = record {
  sigaction_ok = true;
  kill_ok = true;
  arrives = λ k. leb 3 k;
  fifo_dir = none;
  c2s = some 3;
  s2c = some 4;
}

-- A pid that does not fit in 32 bits becomes another one: here -1, which kill takes for every process.
pid_wraps : parse_arguments (codes "4294967295" ∷ []) ≡ some (negsuc 0)
unfolding parse_arguments strtoll is_empty
pid_wraps = refl

-- The response "0 5", interrupted, and the start of the next one.
abbrev a_response : List ReadByte
a_response = byte b'0' ∷ eintr ∷ byte b' ' ∷ byte b'5' ∷ byte 10 ∷ byte b'1' ∷ []

read_response_line-IsRead_example : IsRead 5 (bytes_of a_response) (read_response_line 5 a_response)
read_response_line-IsRead_example = read_response_line-IsRead 5 a_response (omega arith)

read_response_line_short :
    read_response_line 4 a_response
    ≡ record { succeeds = true; text = codes "0 5"; calls = byte 10 ∷ byte b'1' ∷ [] }
unfolding read_response_line is_empty
read_response_line_short = refl
