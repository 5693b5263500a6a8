-- ===== src/Server/Main.antt =====
-- server_main.c, main: the rounds of the main thread over all its clients. The clients' list is a
-- list; what the operating system does in a round is a record.
use comp_p.Common.{
  ℕ, ◌+◌, Bool, true, false, List, [], ◌∷◌, ◌++◌, Option, none, some, leb, if◌then◌else◌,
}
use comp_p.Threadpool.{Threadpool}
use comp_p.Rpc.{World, with_client}
use comp_p.Connection.{server_take_pending_client}
use comp_p.Server.{ServerClient}
use comp_p.Server.Clients.{
  Released, nothing_released, close_client, Opening, accept_client, cleanup_client, Read,
  read_client_requests,
}

-- What the main thread works on. The world's client is the one that it worked on last.
pub record Server : Type 0 where
  pub clients : List ServerClient
  pub world : World
  pub pool : Threadpool
  pub released : Released

abbrev pub and_also : Released → Released → Released
and_also r r' = record { closed = r.closed ++ r'.closed; unlinked = r.unlinked ++ r'.unlinked }

-- What one iteration leaves of a client.
pub record Visited : Type 0 where
  pub client : ServerClient
  pub world : World
  pub pool : Threadpool
  pub released : Released

-- A loop over the list of clients: each iteration works on one of them.
unfoldable pub over_clients :
    (ServerClient → World → Threadpool → Visited) → List ServerClient → World → Threadpool → Server
over_clients visit [] w pool = record {
  clients = [];
  world = w;
  pool = pool;
  released = nothing_released;
}
over_clients visit (c ∷ cs) w pool =
    let v = visit c w pool in
    let rest = over_clients visit cs v.world v.pool in
    record rest { clients = v.client ∷ rest.clients; released = and_also v.released rest.released }

-- Such a loop, in the server.
abbrev pub sweep : (ServerClient → World → Threadpool → Visited) → Server → Server
sweep visit s =
    let s' = over_clients visit s.clients s.world s.pool in
    record s' { released = and_also s.released s'.released }

abbrev pub visited : ServerClient → World × Threadpool × Released → Visited
visited c (w, pool, released) = record {
  client = record c { state = w.client };
  world = w;
  pool = pool;
  released = released;
}

-- `gone` says which processes do not exist.
unfoldable pub cleanup_visit : ℕ → (ℕ → Bool) → ServerClient → World → Threadpool → Visited
cleanup_visit now gone c w pool =
    visited c (cleanup_client now (gone c.state.client_pid) (with_client c.state w) pool)

unfoldable pub cleanup_inactive_clients : ℕ → (ℕ → Bool) → Server → Server
unfolding cleanup_visit
cleanup_inactive_clients now gone s = sweep (cleanup_visit now gone) s

-- The descriptor that select watches.
unfoldable pub watched_fd : ServerClient → Option ℕ
watched_fd c = if c.state.disconnected then none else c.state.fifo_c2s_fd

unfoldable pub max_of : Option ℕ → ℕ → ℕ
max_of none n = n
max_of (some fd) n = if leb n fd then fd + 1 else n

-- The descriptors for select, and its first argument: one more than the greatest, or 0.
unfoldable pub read_set : List ServerClient → List ℕ × ℕ
read_set [] = ([], 0)
read_set (c ∷ cs) =
    let (fds, n) = read_set cs in
    (elim (watched_fd c) [ none ↦ fds | some fd ↦ fd ∷ fds ], max_of (watched_fd c) n)

-- What select returns: an error, with EINTR or another one, no descriptor within the second, or the
-- descriptors that are ready.
pub data Select : Type 0 where
  interrupted broken timed_out : Select
  ready : (ℕ → Bool) → Select

-- What the operating system does in a round: for accept_client, the time, the processes that are
-- gone, select, and for each client the results of read and which lines find memory.
pub record Happening : Type 0 where
  pub opening : Opening
  pub now : ℕ
  pub gone : ℕ → Bool
  pub select : Select
  pub reads : ℕ → List Read
  pub allocations : ℕ → ℕ → Bool × Bool × Bool

abbrev pub untouched : ServerClient → World → Threadpool → Visited
untouched c w pool = record { client = c; world = w; pool = pool; released = nothing_released }

unfoldable pub is_ready : (ℕ → Bool) → Option ℕ → Bool
is_ready set none = false
is_ready set (some fd) = set fd

unfoldable pub read_visit : Happening → (ℕ → Bool) → ServerClient → World → Threadpool → Visited
read_visit h set c w pool =
    let pid = c.state.client_pid in
    let (w', pool', buffer, released) =
      read_client_requests (h.allocations pid) h.now (h.reads pid) (with_client c.state w) pool
        c.read_buffer in
    if is_ready set (watched_fd c)
    then record {
      client = record { state = w'.client; read_buffer = buffer };
      world = w';
      pool = pool';
      released = released;
    }
    else untouched c w pool

-- The rest of a round after select, and whether the loop goes on.
unfoldable pub after_select : Happening → Select → Server → Server × Bool
after_select h interrupted s = (s, true)
after_select h broken s = (s, false)
after_select h timed_out s = (s, true)
after_select h (ready set) s = (sweep (read_visit h set) s, true)

-- The pid is 0 if no signal has come.
unfoldable pub accept_pending : Opening → ℕ → Server → Server
accept_pending opening pid s =
    let a = accept_client opening pid s.clients s.pool in
    if leb 1 pid
    then record s { clients = a.clients; pool = a.pool; released = and_also s.released a.released }
    else s

-- One round. The number is pending_client_pid.
unfoldable pub main_round : Happening → ℕ → Server → Server × Bool × ℕ
unfolding accept_pending cleanup_inactive_clients after_select
main_round h pending_client_pid s =
    let (pending_client, pending') = server_take_pending_client pending_client_pid in
    let accepted = accept_pending h.opening pending_client s in
    let (s', goes_on) = after_select h h.select (cleanup_inactive_clients h.now h.gone accepted) in
    (s', goes_on, pending')

unfoldable pub close_visit : ℕ → ServerClient → World → Threadpool → Visited
close_visit now c w pool = visited c (close_client now (with_client c.state w) pool)

-- After the loop: every client is closed. The frees of the pool and of the store follow.
unfoldable pub close_clients : ℕ → Server → Server
unfolding close_visit
close_clients now s = sweep (close_visit now) s
