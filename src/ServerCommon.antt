-- ===== src/ServerCommon.antt =====
-- server_common.h: the state of a connected client, which all parts of the server share.
use comp_p.Common.{ℕ, ◌+◌, ◌%◌, ◌^◌, Bool, false, [], Option, none, Bytes, ◌-◌}
use comp_p.CString.Number.{ℤ, pos}

abbrev pub max_pending_responses : ℕ
max_pending_responses = 1024

abbrev pub u64_mod : ℕ
u64_mod = 2 ^ 64

-- `n++` and `n--` on a uint64_t or size_t.
abbrev pub inc64 : ℕ → ℕ
inc64 n = (n + 1) % u64_mod

abbrev pub dec64 : ℕ → ℕ
dec64 n = (n + (u64_mod - 1)) % u64_mod

pub record Response : Type 0 where
  pub seq_num : ℕ
  pub response_str : Bytes
  pub ready : Bool

-- A file descriptor of -1 is `none`; the array of pending responses is a function of the slot.
pub record ClientState : Type 0 where
  pub client_pid : ℕ
  pub username : Bytes
  pub balance : ℤ
  pub logged_in : Bool
  pub fifo_c2s_fd : Option ℕ
  pub fifo_s2c_fd : Option ℕ
  pub requests_received : ℕ
  pub responses_sent : ℕ
  pub pending_responses : ℕ → Response
  pub disconnected : Bool
  pub last_activity : ℕ
  pub disconnect_after : ℕ

pub record Request : Type 0 where
  pub client : ℕ
  pub request_seq_num : ℕ
  pub rpc_line : Bytes

abbrev pub empty_response : Response
empty_response = record { seq_num = 0; response_str = []; ready = false }

-- A client_state_t from calloc.
abbrev pub zero_client : ClientState
zero_client = record {
  client_pid = 0;
  username = [];
  balance = pos 0;
  logged_in = false;
  fifo_c2s_fd = none;
  fifo_s2c_fd = none;
  requests_received = 0;
  responses_sent = 0;
  pending_responses = λ slot. empty_response;
  disconnected = false;
  last_activity = 0;
  disconnect_after = 0;
}
