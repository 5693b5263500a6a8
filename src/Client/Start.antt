-- ===== src/Client/Start.antt =====
-- client_main.c, the arguments and the start of main.
use comp_p.Common.{
  ◌≡◌, ◌⊎◌, ℕ, ◌-◌, ◌^◌, ◌%◌, Bool, true, false, not, ◌||◌, List, [], ◌∷◌, Option, none, some, ltb,
  leb, if◌then◌else◌, Bytes,
}
use comp_p.CString.Number.{ℤ, pos, negsuc, strtoll}
use comp_p.Auth.{is_empty}
use comp_p.Client.Run.{Pipes, Ran, client_session}
use comp_p.Connection.{max_fifo_name_len, get_client_fifo_paths}
use comp_p.Connection.ClientSide.{
  Opened, send_connection_request, open_client_fifos, close_client_fifos,
}

-- The conversion of a long that is not negative to pid_t, of 32 bits.
unfoldable pub to_pid : ℕ → ℤ
to_pid n = let m = n % 2 ^ 32 in if ltb m (2 ^ 31) then pos m else negsuc (2 ^ 32 - 1 - m)

unfoldable pub server_pid : ℤ → Option ℤ
unfolding to_pid
server_pid (pos n) = if leb 1 n then some (to_pid n) else none
server_pid (negsuc n) = none

-- The arguments after the program's name.
unfoldable pub parse_arguments : List Bytes → Option ℤ
unfolding server_pid
parse_arguments (arg ∷ []) =
    let r = strtoll arg in
    if r.range_error || (not r.moved || not (is_empty r.rest)) then none else server_pid r.value
parse_arguments _ = none

-- What the system does while the client connects.
pub record Connecting : Type 0 where
  pub sigaction_ok : Bool
  pub kill_ok : Bool
  pub arrives : ℕ → Bool
  pub fifo_dir : Option Bytes
  pub c2s : Option ℕ
  pub s2c : Option ℕ

-- main exits with the usage, returns 1 and leaves these descriptors closed, or runs its session and
-- closes these descriptors; the fuel of the session is in it.
pub data Ended : Type 0 where
  usage : Ended
  returns_1 : List ℕ → Ended
  returns_0 : Option Ran → List ℕ → Ended

unfoldable pub is_zero : ℤ → Bool
is_zero (pos n) = leb n 0
is_zero (negsuc n) = false

unfoldable pub client_main : Connecting → ℕ → Pipes → List Bytes → Ended
unfolding is_zero
client_main os client_pid pipes arguments = elim (parse_arguments arguments) [
  | none ↦ usage
  | some pid ↦
      let opened = open_client_fifos os.c2s os.s2c os.fifo_dir client_pid in
      if not (is_zero (send_connection_request os.sigaction_ok os.kill_ok os.arrives false).0)
      then returns_1 []
      else if not (is_zero opened.rc)
      then returns_1 opened.closed
      else returns_0 (client_session pipes) (close_client_fifos opened.c2s_fd opened.s2c_fd)
]

-- What two calls of open give, the second one made only if the first one succeeds.
unfoldable pub in_turn : Option ℕ → Option ℕ → List ℕ
in_turn none b = []
in_turn (some fd) none = fd ∷ []
in_turn (some fd) (some fd') = fd ∷ fd' ∷ []

-- The descriptors that the system gives main: none before the server has answered, or where the
-- paths are too long; then that of FIFO_C2S, and that of FIFO_S2C once the first is open.
unfoldable pub opened_by : Connecting → ℕ → List ℕ
opened_by os client_pid =
    if is_zero (send_connection_request os.sigaction_ok os.kill_ok os.arrives false).0
    then elim (get_client_fifo_paths max_fifo_name_len os.fifo_dir client_pid) [
      | none ↦ []
      | some paths ↦ in_turn os.c2s os.s2c
    ]
    else []

-- How main may end: its session has come to an end with both FIFOs open, or it has not begun; and
-- what it has closed are the descriptors that it was given, each once.
abbrev pub IsEnded : Connecting → ℕ → Ended → Type 0
IsEnded os client_pid usage = Unit
IsEnded os client_pid (returns_1 closed) = closed ≡ opened_by os client_pid
IsEnded os client_pid (returns_0 ran closed) =
    ((r : Ran) × (ran ≡ some r))
    × ((fd fd' : ℕ) × (os.c2s ≡ some fd) × (os.s2c ≡ some fd') × (closed ≡ fd ∷ fd' ∷ []))
    × (closed ≡ opened_by os client_pid)

-- What open_client_fifos may do with what open returns, where the paths fit or do not.
IsOpening : Option ℕ → Option ℕ → List ℕ → Opened → Type 0
IsOpening c2s s2c given o =
    ((is_zero o.rc ≡ false) × (o.closed ≡ given))
    ⊎ ((is_zero o.rc ≡ true)
        × ((fd fd' : ℕ) × (c2s ≡ some fd)
            × (s2c ≡ some fd')
            × (close_client_fifos o.c2s_fd o.s2c_fd ≡ fd ∷ fd' ∷ []))
        × (close_client_fifos o.c2s_fd o.s2c_fd ≡ given))
