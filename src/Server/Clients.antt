-- ===== src/Server/Clients.antt =====
-- Accepting, reading and closing clients. The outcomes of the calls of the operating system are
-- arguments; the descriptors that are closed and the pids whose FIFOs are unlinked are results.
use comp_p.Common.{
  ℕ, suc, ◌^◌, ◌-◌, Bool, true, false, not, ◌&&◌, ◌||◌, List, [], ◌∷◌, ◌++◌, Option, none, some,
  ◌==◌, leb, if◌then◌else◌, Bytes,
}
use comp_p.CString.{c_str}
use comp_p.CString.Number.{ℤ, pos, negsuc, strtoll}
use comp_p.Auth.{is_empty}
use comp_p.ServerCommon.{ClientState, zero_client}
use comp_p.Threadpool.{Threadpool, Status, ok, no_memory, exists, shut_down, not_connected}
use comp_p.Threadpool.Queues.{
  threadpool_register_client, threadpool_remove_client, threadpool_submit,
}
use comp_p.Rpc.{World, with_client}
use comp_p.Rpc.Request.{rpc_client_disconnected}
use comp_p.Server.{ServerClient}
use comp_p.Server.Framing.{process_buffered_lines}

unfoldable pub thread_count : ℤ → Option ℕ
thread_count (pos n) = if leb 1 n && leb n (2 ^ 31 - 1) then some n else none
thread_count (negsuc n) = none

-- The arguments after the program's name.
unfoldable pub parse_arguments : List Bytes → Option ℕ
parse_arguments (size ∷ []) =
    let r = strtoll size in
    if r.range_error || (not r.moved || not (is_empty r.rest)) then none else thread_count r.value
parse_arguments _ = none

unfoldable pub find_client : ℕ → List ServerClient → Option ServerClient
find_client pid [] = none
find_client pid (c ∷ cs) = if c.state.client_pid == pid then some c else find_client pid cs

-- What a call leaves behind: descriptors that it closed, and FIFOs that it unlinked.
pub record Released : Type 0 where
  pub closed : List ℕ
  pub unlinked : List ℕ

abbrev pub nothing_released : Released
nothing_released = record { closed = []; unlinked = [] }

unfoldable pub opened_fd : Option ℕ → List ℕ
opened_fd none = []
opened_fd (some fd) = fd ∷ []

-- The client is the one of the world.
unfoldable pub close_client : ℕ → World → Threadpool → World × Threadpool × Released
close_client now w pool =
    let w' = rpc_client_disconnected now w in
    let gone = record w'.client { disconnected = true; fifo_c2s_fd = none; fifo_s2c_fd = none } in
    if w.client.disconnected then (w, pool, nothing_released) else (
      with_client gone w',
      threadpool_remove_client pool w.client.client_pid,
      record {
        closed = opened_fd w.client.fifo_c2s_fd ++ opened_fd w.client.fifo_s2c_fd;
        unlinked = w.client.client_pid ∷ [];
      },
    )

-- What the operating system does for accept_client.
pub record Opening : Type 0 where
  pub fifos_ok : Bool
  pub ready_ok : Bool
  pub paths_ok : Bool
  pub c2s : Option ℕ
  pub s2c : Option ℕ
  pub calloc_ok : Bool
  pub mutex_ok : Bool
  pub queue_ok : Bool
  pub time : ℕ

pub record Accepted : Type 0 where
  pub rc : ℤ
  pub clients : List ServerClient
  pub pool : Threadpool
  pub released : Released

unfoldable pub new_client : Opening → ℕ → ℕ → ℕ → ServerClient
new_client os pid c2s s2c = record {
  state = record zero_client {
    client_pid = pid;
    fifo_c2s_fd = some c2s;
    fifo_s2c_fd = some s2c;
    last_activity = os.time;
  };
  read_buffer = [];
}

abbrev pub refused : List ℕ → ℕ → List ServerClient → Threadpool → Accepted
refused fds pid clients pool = record {
  rc = negsuc 0;
  clients = clients;
  pool = pool;
  released = record { closed = fds; unlinked = pid ∷ [] };
}

unfoldable pub is_ok : Status → Bool
is_ok ok = true
is_ok no_memory = false
is_ok exists = false
is_ok shut_down = false
is_ok not_connected = false

-- With both FIFOs open.
unfoldable pub enlist : Opening → ℕ → ℕ → ℕ → List ServerClient → Threadpool → Accepted
enlist os pid c2s s2c clients pool =
    let (status, pool') = threadpool_register_client os.queue_ok pool pid in
    if not os.calloc_ok || not os.mutex_ok
    then refused (c2s ∷ s2c ∷ []) pid clients pool
    else if not (is_ok status)
    then refused (c2s ∷ s2c ∷ []) pid clients pool'
    else record {
      rc = pos 0;
      clients = new_client os pid c2s s2c ∷ clients;
      pool = pool';
      released = nothing_released;
    }

unfoldable pub open_fifos : Opening → ℕ → List ServerClient → Threadpool → Accepted
open_fifos os pid clients pool = elim os.c2s [
  | none ↦ refused [] pid clients pool
  | some c2s ↦ elim os.s2c [
    | none ↦ refused (c2s ∷ []) pid clients pool
    | some s2c ↦ enlist os pid c2s s2c clients pool
  ]
]

-- A pid from a signal is not negative.
unfoldable pub accept_client : Opening → ℕ → List ServerClient → Threadpool → Accepted
accept_client os pid clients pool =
    let same : Accepted = record {
      rc = pos 0;
      clients = clients;
      pool = pool;
      released = nothing_released;
    } in
    if pid == 0 then same else elim (find_client pid clients) [
      | some c ↦ same
      | none ↦
          if not os.fifos_ok
          then record same { rc = negsuc 0 }
          else if not os.ready_ok || not os.paths_ok
          then refused [] pid clients pool
          else open_fifos os pid clients pool
    ]

-- The flags say whether the copy and the two allocations of threadpool_submit succeed.
unfoldable pub submit_line :
    Bool × Bool × Bool → Threadpool × ClientState → Bytes → Threadpool × ClientState
submit_line (copy_ok, request_ok, node_ok) (pool, client) line =
    let (status, pool', client') = threadpool_submit request_ok node_ok pool client (c_str line) in
    if not copy_ok then (pool, client) else (pool', client')

unfoldable pub submit_lines :
    (ℕ → Bool × Bool × Bool) → ℕ → Threadpool × ClientState → List Bytes → Threadpool × ClientState
submit_lines allocations k state [] = state
submit_lines allocations k state (line ∷ lines) =
    submit_lines allocations (suc k) (submit_line (allocations k) state line) lines

-- Whether cleanup_inactive_clients closes the client. `kill` says that the process is gone.
unfoldable pub is_inactive : ℕ → Bool → ClientState → Bool
is_inactive now gone client =
    not client.disconnected
    && ((not (client.disconnect_after == 0) && leb client.disconnect_after now) || gone)

unfoldable pub cleanup_client : ℕ → Bool → World → Threadpool → World × Threadpool × Released
cleanup_client now gone w pool =
    if is_inactive now gone w.client then close_client now w pool else (w, pool, nothing_released)

-- What read returns: bytes, the end of the file, or an error by errno.
pub data Read : Type 0 where
  got : Bytes → Read
  ended interrupted would_block broken : Read

abbrev pub Reading : Type 0
Reading = World × Threadpool × Bytes × Released

-- The bytes of one read go to the buffer, and the lines in it to the pool.
unfoldable pub take_bytes :
    (ℕ → Bool × Bool × Bool) → ℕ → World → Threadpool → Bytes → World × Threadpool × Bytes
take_bytes allocations now w pool buffer =
    let (lines, rest) = process_buffered_lines buffer in
    let (pool', client) =
      submit_lines allocations 0 (pool, record w.client { last_activity = now }) lines in
    (with_client client w, pool', rest)

-- The loop ends where the reads do.
unfoldable pub read_client_requests :
    (ℕ → Bool × Bool × Bool) → ℕ → List Read → World → Threadpool → Bytes → Reading
read_client_requests allocations now [] w pool buffer = (w, pool, buffer, nothing_released)
read_client_requests allocations now (r ∷ reads) w pool buffer =
    let (w', pool', released) = close_client now w pool in
    let closed : Reading = (w', pool', buffer, released) in
    let stopped : Reading = (w, pool, buffer, nothing_released) in
    let again = read_client_requests allocations now reads w pool buffer in
    let more = λ (chunk : Bytes).
      let (w1, pool1, rest) = take_bytes allocations now w pool (buffer ++ chunk) in
      read_client_requests allocations now reads w1 pool1 rest in
    if w.client.disconnected then stopped else elim r [
      | got chunk ↦ more chunk
      | ended ↦ closed
      | interrupted ↦ again
      | would_block ↦ stopped
      | broken ↦ closed
    ]
