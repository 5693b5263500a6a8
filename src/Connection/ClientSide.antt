-- ===== src/Connection/ClientSide.antt =====
-- client_connection.c: the client's side of a connection. What the system calls do is an argument.
use comp_p.Common.{
  ℕ, zero, suc, ◌+◌, ◌<◌, ◌≡◌, refl, Bool, true, false, not, ◌||◌, List, [], ◌∷◌, Option, none,
  some, if◌then◌else◌, Bytes, arith,
}
use comp_p.CString.Number.{ℤ, pos, negsuc}
use comp_p.Connection.{max_fifo_name_len, get_client_fifo_paths}

-- sigusr2_received after the handler.
abbrev pub sigusr2_handler : Bool → Bool
sigusr2_handler sigusr2_received = true

-- The flag after what happens before the next look at it.
unfoldable pub flag_after : Bool → Bool → Bool
flag_after arrives flag = if arrives then sigusr2_handler flag else flag

-- The rounds of the wait that are left, the next of which is round `i`. `arrives i` says that
-- SIGUSR2 comes before the flag is read in round `i`, and after it is read in the round before.
unfoldable pub wait_ready : (ℕ → Bool) → ℕ → ℕ → Bool → Bool × Bool
unfolding flag_after
wait_ready arrives zero i flag = (false, flag)
wait_ready arrives (suc rounds) i flag =
    let flag' = flag_after (arrives i) flag in
    let later = wait_ready arrives rounds (suc i) flag' in if flag' then (true, flag') else later

-- The return code, and sigusr2_received.
unfoldable pub send_connection_request : Bool → Bool → (ℕ → Bool) → Bool → ℤ × Bool
unfolding wait_ready
send_connection_request sigaction_ok kill_ok arrives flag =
    let (got, flag') = wait_ready arrives 10 0 flag in
    if not sigaction_ok || not kill_ok
    then (negsuc 0, flag)
    else if got
    then (pos 0, flag')
    else (negsuc 0, flag')

-- What open_client_fifos leaves: the return code, the two descriptors, and those that it closes.
pub record Opened : Type 0 where
  pub rc : ℤ
  pub c2s_fd : Option ℕ
  pub s2c_fd : Option ℕ
  pub closed : List ℕ

-- The descriptors before are -1; `c2s` and `s2c` are what open returns.
unfoldable pub open_client_fifos : Option ℕ → Option ℕ → Option Bytes → ℕ → Opened
open_client_fifos c2s s2c dir pid = elim (get_client_fifo_paths max_fifo_name_len dir pid) [
  | none ↦ record { rc = negsuc 0; c2s_fd = none; s2c_fd = none; closed = [] }
  | some paths ↦ elim c2s [
    | none ↦ record { rc = negsuc 0; c2s_fd = none; s2c_fd = none; closed = [] }
    | some fd ↦ elim s2c [
      | none ↦ record { rc = negsuc 0; c2s_fd = some fd; s2c_fd = none; closed = fd ∷ [] }
      | some fd' ↦ record { rc = pos 0; c2s_fd = some fd; s2c_fd = some fd'; closed = [] }
    ]
  ]
]

unfoldable pub fd_list : Option ℕ → List ℕ
fd_list none = []
fd_list (some fd) = fd ∷ []

-- The descriptors that are closed, in order.
unfoldable pub close_client_fifos : Option ℕ → Option ℕ → List ℕ
unfolding fd_list
close_client_fifos none s2c = fd_list s2c
close_client_fifos (some fd) s2c = fd ∷ fd_list s2c

wait_ready-None :
    (arrives : ℕ → Bool) (rounds i : ℕ)
    → ((k : ℕ) → k < i + rounds → arrives k ≡ false)
    → (wait_ready arrives rounds i false).0 ≡ false
unfolding wait_ready flag_after
wait_ready-None arrives zero i none_comes = refl
wait_ready-None arrives (suc rounds) i none_comes = ground (
  arith,
  none_comes i,
  wait_ready-None arrives rounds (suc i) (λ k h. none_comes k (omega arith)),
)

wait_ready-Some :
    (arrives : ℕ → Bool) (k rounds i : ℕ)
    → arrives (i + k) ≡ true
    → k < rounds
    → (flag : Bool) → (wait_ready arrives rounds i flag).0 ≡ true
unfolding wait_ready flag_after
wait_ready-Some arrives zero zero i comes h flag = elim h [ ]
wait_ready-Some arrives zero (suc rounds) i comes h flag =
    let here : i + 0 ≡ i = omega arith in rw (rw here at comes) refl
wait_ready-Some arrives (suc k) zero i comes h flag = elim h [ ]
wait_ready-Some arrives (suc k) (suc rounds) i comes h flag =
    let later : i + suc k ≡ suc i + k = omega arith in
    ground (
      arith,
      wait_ready-Some arrives k rounds (suc i) (rw later at comes) (omega arith)
          (flag_after (arrives i) flag),
    )

-- The client connects exactly if SIGUSR2 comes before one of the ten looks at the flag: a signal
-- that comes in the sleep after the tenth look is too late.
pub send_connection_request_lem :
    (arrives : ℕ → Bool)
    → ((k : ℕ)
        → k < 10
        → arrives k ≡ true
        → (send_connection_request true true arrives false).0 ≡ pos 0)
      × (((k : ℕ) → k < 10 → arrives k ≡ false)
          → (send_connection_request true true arrives false).0 ≡ negsuc 0)
unfolding send_connection_request
send_connection_request_lem arrives = (
  λ k h comes. ground (arith, wait_ready-Some arrives k 10 0 (rw (zero_add k) comes) h false),
  λ none_comes. ground (arith, wait_ready-None arrives 10 0 none_comes),
)
  where
    zero_add : (n : ℕ) → 0 + n ≡ n
    zero_add n = omega arith
