-- ===== src/Client/Loop.antt =====
-- The loop of main: one line of input after another.
use comp_p.Common.{
  ℕ, ◌+◌, ◌-◌, Bool, true, false, not, ◌&&◌, [], ◌∷◌, ◌++◌, Option, none, some, ◌==◌, leb,
  if◌then◌else◌, Bytes, codes, str_eq, length,
}
use comp_p.CString.{c_str, strncpy}
use comp_p.CString.Number.{ℤ}
use comp_p.CString.Decimal.{show_ℤ}
use comp_p.Client.{Session, Turn, max_input_len, max_response_len}
use comp_p.Client.Text.{strip_newline, first_token, login_username, parse_integer_reply}
use comp_p.Client.Display.{puts, display_rpc_response}

abbrev pub max_username_len : ℕ
max_username_len = 32

-- strncmp(s, prefix, strlen(prefix)) == 0.
unfoldable pub has_prefix : Bytes → Bytes → Bool
has_prefix [] s = true
has_prefix (p ∷ ps) [] = false
has_prefix (p ∷ ps) (c ∷ s) = p == c && has_prefix ps s

unfoldable pub ends_line : Bytes → Bool
ends_line [] = false
ends_line (c ∷ []) = c == 10
ends_line (c ∷ d ∷ s) = ends_line (d ∷ s)

-- The name that main passes on: the buffer is empty if the line has none.
unfoldable pub name_or_empty : Option Bytes → Bytes
name_or_empty none = []
name_or_empty (some name) = name

unfoldable pub enter : Bytes → Bytes → ℤ → Session → Turn
enter sent name balance s =
    let name' = strncpy max_username_len name in
    record {
      printed =
          puts (codes "Welcome " ++ (name' ++ (codes ". Your balance is " ++ show_ℤ balance)));
      sent = sent;
      goes_on = true;
      session = record s { logged_in = true; current_username = name' };
    }

-- The response to a Login.
unfoldable pub take_login : Bytes → Bytes → Bytes → Session → Turn
take_login sent name response s =
    let display = strip_newline (strncpy (max_response_len - 1) response) in
    if has_prefix (codes "Reject") display
    then record {
      printed = puts display;
      sent = sent;
      goes_on = false;
      session = record s { sent_disconnect = true };
    }
    else elim (parse_integer_reply response) [
      | some balance ↦ enter sent name balance s
      | none ↦ record { printed = puts display; sent = sent; goes_on = true; session = s }
    ]

abbrev pub quiet : Bytes → Bool → Session → Turn
quiet sent goes_on s = record { printed = []; sent = sent; goes_on = goes_on; session = s }

-- The line goes to the server. The response is `none` if it cannot be read.
unfoldable pub exchange : Bool → Option Bytes → Bytes → Bytes → Session → Turn
exchange write_ok response line command s =
    if not write_ok
    then quiet [] false s
    else if str_eq command (codes "Disconnect")
    then quiet line false (record s { sent_disconnect = true })
    else elim response [
      | none ↦ quiet line false s
      | some text ↦
          if str_eq command (codes "Login")
          then take_login line (name_or_empty (login_username line (max_username_len + 1))) text s
          else record {
            printed = display_rpc_response text;
            sent = line;
            goes_on = true;
            session = s;
          }
    ]

-- What main does with a line: nothing, it refuses it, or it sends it with that command.
pub data Verdict : Type 0 where
  ignore refuse : Verdict
  send : Bytes → Verdict

unfoldable pub judge : Bytes → Session → Verdict
judge line s = elim (first_token line 64) [
  | none ↦ ignore
  | some command ↦
      if not s.logged_in
        && (not (str_eq command (codes "Login")) && not (str_eq command (codes "Disconnect")))
      then refuse
      else send command
]

unfoldable pub act : Verdict → Bool → Option Bytes → Bytes → Session → Turn
act ignore write_ok response line s = quiet [] true s
act refuse write_ok response line s = record {
  printed = puts (codes "Not logged in");
  sent = [];
  goes_on = true;
  session = s;
}
act (send command) write_ok response line s = exchange write_ok response line command s

-- A whole line, with its newline.
unfoldable pub handle_line : Bool → Option Bytes → Bytes → Session → Turn
unfolding act
handle_line write_ok response line s = act (judge line s) write_ok response line s

-- The buffer that fgets has filled: nothing, a line that does not fit, or a line, which gets a
-- newline if it has none.
pub data Input : Type 0 where
  empty too_long : Input
  whole : Bytes → Input

unfoldable pub input_line : Bytes → Input
input_line buffer =
    let line = c_str buffer in
    if length line == 0
    then empty
    else if ends_line line
    then whole line
    else if leb max_input_len (length line + 1)
    then too_long
    else whole (line ++ (10 ∷ []))

-- The loop of getchar: what follows the next newline.
unfoldable pub skip_line : Bytes → Bytes
skip_line [] = []
skip_line (c ∷ s) = let rest = skip_line s in if c == 10 then s else rest
