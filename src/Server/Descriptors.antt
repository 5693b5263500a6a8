-- ===== src/Server/Descriptors.antt =====
-- server_main.c, the file descriptors that each operation on a client keeps and closes.
use comp_p.Common.{
  ℕ, suc, ◌+◌, ◌≡◌, refl, sym, ap, ◌∙◌, inl, inr, Bool, true, false, ◌&&◌, List, [], ◌∷◌, ◌++◌,
  none, some, ◌==◌, if◌then◌else◌, Bytes, Bool-cases, arith,
}
use comp_p.ServerCommon.{ClientState}
use comp_p.Threadpool.{Threadpool}
use comp_p.Threadpool.Queues.{threadpool_submit, threadpool_register_client}
use comp_p.Rpc.{World}
use comp_p.Server.{ServerClient}
use comp_p.Server.Framing.{process_buffered_lines}
use comp_p.Server.Clients.{
  opened_fd, Released, nothing_released, close_client, Opening, find_client, is_ok, new_client,
  enlist, open_fifos, accept_client, submit_line, submit_lines, is_inactive, cleanup_client, Read,
  got, ended, interrupted, would_block, broken, take_bytes, Reading, read_client_requests,
}

-- How often a number stands in a list.
unfoldable pub count : ℕ → List ℕ → ℕ
count n [] = 0
count n (m ∷ ms) = if m == n then suc (count n ms) else count n ms

pub count-append : (n : ℕ) (ms ks : List ℕ) → count n (ms ++ ks) ≡ count n ms + count n ks
unfolding count
count-append n [] ks = omega arith
count-append n (m ∷ ms) ks = ground (arith, count-append n ms ks)

-- The descriptors of a client, and of a list of clients.
unfoldable pub fds_of : ClientState → List ℕ
fds_of c = opened_fd c.fifo_c2s_fd ++ opened_fd c.fifo_s2c_fd

unfoldable pub held_fds : List ServerClient → List ℕ
held_fds [] = []
held_fds (c ∷ cs) = fds_of c.state ++ held_fds cs

-- The descriptors that accept_client opens.
unfoldable pub opened_by : Opening → ℕ → List ServerClient → List ℕ
opened_by os pid clients = if pid == 0 then [] else elim (find_client pid clients) [
  | some c ↦ []
  | none ↦
      if os.fifos_ok && (os.ready_ok && os.paths_ok)
      then elim os.c2s [ none ↦ [] | some fd ↦ fd ∷ opened_fd os.s2c ]
      else []
]

-- Nothing is lost, and nothing is closed twice: the descriptors before are those that stay and those
-- that are closed.
abbrev pub Keeps : ClientState → ClientState → Released → Type 0
Keeps c c' released =
    (fd : ℕ) → count fd (fds_of c) ≡ count fd (fds_of c') + count fd released.closed

pub close_client-Keeps :
    (now : ℕ) (w : World) (pool : Threadpool)
    → let (w', pool', released) = close_client now w pool in Keeps w.client w'.client released
unfolding close_client fds_of opened_fd count
close_client-Keeps now w pool fd = elim (Bool-cases w.client.disconnected) [
  | inl gone ↦ rw (gone, close_client) (omega arith)
  | inr here ↦ rw (here, close_client) (omega arith)
]

pub cleanup_client-Keeps :
    (now : ℕ) (gone : Bool) (w : World) (pool : Threadpool)
    → let (w', pool', released) = cleanup_client now gone w pool in
      Keeps w.client w'.client released
unfolding cleanup_client count
cleanup_client-Keeps now gone w pool fd = elim (Bool-cases (is_inactive now gone w.client)) [
  | inl old ↦ rw (old, cleanup_client) (close_client-Keeps now w pool fd)
  | inr active ↦ rw (active, cleanup_client) (omega arith)
]

submit_line-fds :
    (allocations : Bool × Bool × Bool) (pool : Threadpool) (c : ClientState) (line : Bytes)
    → fds_of (submit_line allocations (pool, c) line).1 ≡ fds_of c
unfolding submit_line threadpool_submit fds_of
submit_line-fds (copy_ok, request_ok, node_ok) pool c line = ground arith

submit_lines-fds :
    (allocations : ℕ → Bool × Bool × Bool) (k : ℕ) (state : Threadpool × ClientState)
    (lines : List Bytes)
    → fds_of (submit_lines allocations k state lines).1 ≡ fds_of state.1
unfolding submit_lines
submit_lines-fds allocations k state [] = refl
submit_lines-fds allocations k (pool, c) (line ∷ lines) =
    submit_lines-fds allocations (suc k) (submit_line (allocations k) (pool, c) line) lines
    ∙ submit_line-fds (allocations k) pool c line

take_bytes-fds :
    (allocations : ℕ → Bool × Bool × Bool) (now : ℕ) (w : World) (pool : Threadpool)
    (buffer : Bytes)
    → fds_of (take_bytes allocations now w pool buffer).0.client ≡ fds_of w.client
unfolding take_bytes fds_of
take_bytes-fds allocations now w pool buffer =
    submit_lines-fds allocations 0 (pool, record w.client { last_activity = now })
      (process_buffered_lines buffer).0

abbrev KeepsReading : ClientState → Reading → Type 0
KeepsReading c (w, pool, buffer, released) = Keeps c w.client released

either_reading :
    (c : ClientState) (b : Bool) (x y : Reading)
    → KeepsReading c x
    → KeepsReading c y
    → KeepsReading c (if b then x else y)
either_reading c true x y hx hy = hx
either_reading c false x y hx hy = hy

pub still-Keeps : (c : ClientState) → Keeps c c nothing_released
unfolding count
still-Keeps c fd = omega arith

pub read_client_requests-Keeps :
    (allocations : ℕ → Bool × Bool × Bool) (now : ℕ) (reads : List Read) (w : World)
    (pool : Threadpool) (buffer : Bytes)
    → KeepsReading w.client (read_client_requests allocations now reads w pool buffer)
unfolding read_client_requests
read_client_requests-Keeps allocations now [] w pool buffer = still-Keeps w.client
read_client_requests-Keeps allocations now (got chunk ∷ reads) w pool buffer =
    let (w1, pool1, rest) = take_bytes allocations now w pool (buffer ++ chunk) in
    either_reading w.client w.client.disconnected _ _ (still-Keeps w.client) (λ fd.
      ap (count fd) (sym (take_bytes-fds allocations now w pool (buffer ++ chunk)))
      ∙ read_client_requests-Keeps allocations now reads w1 pool1 rest fd)
read_client_requests-Keeps allocations now (ended ∷ reads) w pool buffer =
    either_reading w.client w.client.disconnected _ _ (still-Keeps w.client)
      (close_client-Keeps now w pool)
read_client_requests-Keeps allocations now (interrupted ∷ reads) w pool buffer =
    either_reading w.client w.client.disconnected _ _ (still-Keeps w.client)
      (read_client_requests-Keeps allocations now reads w pool buffer)
read_client_requests-Keeps allocations now (would_block ∷ reads) w pool buffer =
    either_reading w.client w.client.disconnected _ _ (still-Keeps w.client) (still-Keeps w.client)
read_client_requests-Keeps allocations now (broken ∷ reads) w pool buffer =
    either_reading w.client w.client.disconnected _ _ (still-Keeps w.client)
      (close_client-Keeps now w pool)

-- The descriptors that accept_client opens go to the new client or are closed.
pub accept_client-Keeps :
    (os : Opening) (pid : ℕ) (clients : List ServerClient) (pool : Threadpool) (fd : ℕ)
    → let a = accept_client os pid clients pool in
      count fd (opened_by os pid clients) + count fd (held_fds clients)
      ≡ count fd (held_fds a.clients) + count fd a.released.closed
unfolding accept_client open_fifos enlist new_client opened_by held_fds fds_of opened_fd count
    threadpool_register_client is_ok
accept_client-Keeps os pid clients pool fd = ground arith
