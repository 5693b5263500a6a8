-- ===== src/Server/Keeping.antt =====
-- server_main.c, main: the descriptors of all clients over any number of rounds.
use comp_p.Common.{
  ℕ, ◌+◌, ◌≡◌, refl, inl, inr, Bool, true, false, List, [], ◌∷◌, ◌++◌, leb, if◌then◌else◌,
  Bool-cases, arith,
}
use mathlib.Core.List.{append-nil}
use comp_p.Threadpool.{Threadpool}
use comp_p.Rpc.{World, with_client}
use comp_p.Server.{ServerClient}
use comp_p.Server.Clients.{
  nothing_released, opened_fd, close_client, Opening, accept_client, read_client_requests,
}
use comp_p.Server.Main.{
  Server, Visited, over_clients, sweep, untouched, cleanup_visit, cleanup_inactive_clients, Select,
  interrupted, broken, timed_out, ready, Happening, is_ready, watched_fd, read_visit, after_select,
  accept_pending, main_round, close_visit, close_clients,
}
use comp_p.Server.Descriptors.{
  count, count-append, fds_of, held_fds, opened_by, Keeps, still-Keeps, close_client-Keeps,
  cleanup_client-Keeps, read_client_requests-Keeps, accept_client-Keeps,
}

abbrev KeepsVisit : (ServerClient → World → Threadpool → Visited) → Type 0
KeepsVisit visit =
    (c : ServerClient) (w : World) (pool : Threadpool)
    → Keeps c.state (visit c w pool).client.state (visit c w pool).released

over_clients-Keeps :
    (visit : ServerClient → World → Threadpool → Visited)
    → KeepsVisit visit
    → (cs : List ServerClient) (w : World) (pool : Threadpool) (fd : ℕ)
    → let s = over_clients visit cs w pool in
      count fd (held_fds cs) ≡ count fd (held_fds s.clients) + count fd s.released.closed
unfolding over_clients held_fds
over_clients-Keeps visit keep [] w pool fd = unfold count in omega arith
over_clients-Keeps visit keep (c ∷ cs) w pool fd =
    let v = visit c w pool in
    let rest = over_clients visit cs v.world v.pool in
    omega (
      arith,
      keep c w pool fd,
      over_clients-Keeps visit keep cs v.world v.pool fd,
      count-append fd (fds_of c.state) (held_fds cs),
      count-append fd (fds_of v.client.state) (held_fds rest.clients),
      count-append fd v.released.closed rest.released.closed,
    )

-- Every descriptor that has been opened, as often as it has been, is held or has been closed.
abbrev pub Balanced : List ℕ → Server → Type 0
Balanced opened s =
    (fd : ℕ) → count fd opened ≡ count fd (held_fds s.clients) + count fd s.released.closed

sweep-Balanced :
    (visit : ServerClient → World → Threadpool → Visited)
    → KeepsVisit visit
    → (opened : List ℕ) (s : Server) → Balanced opened s
    → Balanced opened (sweep visit s)
sweep-Balanced visit keep opened s b fd =
    let s' = over_clients visit s.clients s.world s.pool in
    omega (
      arith,
      b fd,
      over_clients-Keeps visit keep s.clients s.world s.pool fd,
      count-append fd s.released.closed s'.released.closed,
    )

cleanup_visit-Keeps : (now : ℕ) (gone : ℕ → Bool) → KeepsVisit (cleanup_visit now gone)
unfolding cleanup_visit
cleanup_visit-Keeps now gone c w pool =
    cleanup_client-Keeps now (gone c.state.client_pid) (with_client c.state w) pool

read_visit-Keeps : (h : Happening) (set : ℕ → Bool) → KeepsVisit (read_visit h set)
unfolding read_visit
read_visit-Keeps h set c w pool = chosen (is_ready set (watched_fd c))
  where
    after : Visited
    after =
        let pid = c.state.client_pid in
        let (w', pool', buffer, released) =
          read_client_requests (h.allocations pid) h.now (h.reads pid) (with_client c.state w) pool
            c.read_buffer in
        record {
          client = record { state = w'.client; read_buffer = buffer };
          world = w';
          pool = pool';
          released = released;
        }

    chosen :
        (b : Bool)
        → Keeps c.state
            (if b then after else untouched c w pool).client.state
            (if b then after else untouched c w pool).released
    chosen true =
        read_client_requests-Keeps (h.allocations c.state.client_pid) h.now
          (h.reads c.state.client_pid) (with_client c.state w) pool c.read_buffer
    chosen false = still-Keeps c.state

opened_by-none :
    (opening : Opening) (pid : ℕ) (clients : List ServerClient)
    → leb 1 pid ≡ false
    → opened_by opening pid clients ≡ []
unfolding opened_by
opened_by-none opening pid clients h = ground arith

accept_pending-Balanced :
    (opening : Opening) (pid : ℕ) (opened : List ℕ) (s : Server)
    → Balanced opened s
    → Balanced (opened ++ opened_by opening pid s.clients) (accept_pending opening pid s)
unfolding accept_pending
accept_pending-Balanced opening pid opened s b fd = elim (Bool-cases (leb 1 pid)) [
  | inl asked ↦
      let a = accept_client opening pid s.clients s.pool in
      rw (asked, accept_pending)
        (omega (
          arith,
          b fd,
          accept_client-Keeps opening pid s.clients s.pool fd,
          count-append fd opened (opened_by opening pid s.clients),
          count-append fd s.released.closed a.released.closed,
        ))
  | inr quiet ↦
      rw (quiet, accept_pending, opened_by-none opening pid s.clients quiet, append-nil opened)
        (b fd)
]

after_select-Balanced :
    (h : Happening) (e : Select) (opened : List ℕ) (s : Server)
    → Balanced opened s
    → Balanced opened (after_select h e s).0
unfolding after_select
after_select-Balanced h interrupted opened s b = b
after_select-Balanced h broken opened s b = b
after_select-Balanced h timed_out opened s b = b
after_select-Balanced h (ready set) opened s b =
    sweep-Balanced (read_visit h set) (read_visit-Keeps h set) opened s b

main_round-Balanced :
    (h : Happening) (pid : ℕ) (opened : List ℕ) (s : Server)
    → Balanced opened s
    → Balanced (opened ++ opened_by h.opening pid s.clients) (main_round h pid s).0
unfolding main_round cleanup_inactive_clients
main_round-Balanced h pid opened s b =
    let opened' = opened ++ opened_by h.opening pid s.clients in
    let accepted = accept_pending h.opening pid s in
    after_select-Balanced h h.select opened' (sweep (cleanup_visit h.now h.gone) accepted) (
      sweep-Balanced (cleanup_visit h.now h.gone) (cleanup_visit-Keeps h.now h.gone) opened'
        accepted (accept_pending-Balanced h.opening pid opened s b))

-- The same clients with the same descriptors, whatever else of them has changed.
abbrev pub SameFds : List ServerClient → List ServerClient → Type 0
SameFds [] [] = Unit
SameFds [] (d ∷ ds) = ⊥
SameFds (c ∷ cs) [] = ⊥
SameFds (c ∷ cs) (d ∷ ds) = (fds_of c.state ≡ fds_of d.state) × SameFds cs ds

held_fds-SameFds : (cs ds : List ServerClient) → SameFds cs ds → held_fds cs ≡ held_fds ds
unfolding held_fds
held_fds-SameFds [] [] h = refl
held_fds-SameFds [] (d ∷ ds) h = absurd h
held_fds-SameFds (c ∷ cs) [] h = absurd h
held_fds-SameFds (c ∷ cs) (d ∷ ds) h = rw (h.0, held_fds-SameFds cs ds h.1) refl

-- The server after rounds of the main thread, and the descriptors that they have opened. Between two
-- rounds the workers change the clients, the store and the pool, but no descriptor.
pub data Runs : List ℕ → Server → Type 0 where
  starts :
      (w : World) (pool : Threadpool)
      → Runs [] (record { clients = []; world = w; pool = pool; released = nothing_released })
  round :
      {opened : List ℕ} {s : Server} (h : Happening) (pid : ℕ)
      → Runs opened s
      → Runs (opened ++ opened_by h.opening pid s.clients) (main_round h pid s).0
  workers :
      {opened : List ℕ} {s : Server} (cs : List ServerClient) (w : World) (pool : Threadpool)
      → SameFds s.clients cs
      → Runs opened s
      → Runs opened (record s { clients = cs; world = w; pool = pool })

Runs-Balanced : {opened : List ℕ} {s : Server} → Runs opened s → Balanced opened s
unfolding held_fds count
Runs-Balanced (starts w pool) fd = refl
Runs-Balanced (round {opened} {s} h pid r) fd =
    main_round-Balanced h pid opened s (Runs-Balanced r) fd
Runs-Balanced (workers {opened} {s} cs w pool same r) fd =
    rw (← held_fds-SameFds s.clients cs same) (Runs-Balanced r fd)

-- The clients that are marked as disconnected.
unfoldable pub marked : List ServerClient → List ServerClient
marked [] = []
marked (c ∷ cs) = if c.state.disconnected then c ∷ marked cs else marked cs

close_visit-fds :
    (now : ℕ) (c : ServerClient) (w : World) (pool : Threadpool)
    → fds_of (close_visit now c w pool).client.state
      ≡ (if c.state.disconnected then fds_of c.state else [])
unfolding close_visit close_client fds_of opened_fd
close_visit-fds now c w pool = ground arith

close_clients-marked :
    (now : ℕ) (cs : List ServerClient) (w : World) (pool : Threadpool)
    → held_fds (over_clients (close_visit now) cs w pool).clients ≡ held_fds (marked cs)
unfolding over_clients held_fds marked
close_clients-marked now [] w pool = refl
close_clients-marked now (c ∷ cs) w pool =
    let v = close_visit now c w pool in
    ground (arith, close_visit-fds now c w pool, close_clients-marked now cs v.world v.pool)

close_visit-Keeps : (now : ℕ) → KeepsVisit (close_visit now)
unfolding close_visit
close_visit-Keeps now c w pool = close_client-Keeps now (with_client c.state w) pool

-- In any run of the server, with whatever the system calls do in each round and the workers do
-- between two rounds, the descriptors that the main thread has opened are, each as often as it was
-- opened, those that a client in the list still holds and those that have been closed. And if the
-- loop ends now, close_clients closes all of them but those of the clients that are already marked
-- as disconnected.
pub descriptors_conserved :
    {opened : List ℕ} {s : Server} (now fd : ℕ)
    → Runs opened s
    → (count fd opened ≡ count fd (held_fds s.clients) + count fd s.released.closed)
      × (count fd opened
          ≡ count fd (held_fds (marked s.clients)) + count fd (close_clients now s).released.closed)
unfolding close_clients
descriptors_conserved {opened} {s} now fd r =
    let b = Runs-Balanced r in
    (
      b fd,
      rw (← close_clients-marked now s.clients s.world s.pool)
          (sweep-Balanced (close_visit now) (close_visit-Keeps now) opened s b fd),
    )
