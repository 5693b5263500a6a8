-- ===== src/Server/Tests.antt =====
-- The main thread at concrete inputs.
use comp_p.Common.{
  ℕ, ◌+◌, ◌≡◌, refl, true, false, List, [], ◌∷◌, ◌++◌, none, some, Bytes, codes, length, arith,
}
use comp_p.ServerCommon.{ClientState, zero_client}
use comp_p.Threadpool.{ClientQueue, Threadpool}
use comp_p.Threadpool.Queues.{threadpool_create, find_client_queue}
use comp_p.Server.Close.{close_client_once}
use comp_p.Rpc.{World}
use comp_p.Server.Framing.{process_buffered_lines, process_reads, cut_lines}
use comp_p.Server.Stream.{frames, join, process_reads-frames, process_reads_whole}
use comp_p.Server.Clients.{
  opened_fd, find_client, close_client, cleanup_client, nothing_released, Opening, submit_lines,
}
use comp_p.Server.Main.{Server, timed_out, Happening, main_round, close_clients}
use comp_p.Server.Descriptors.{count, held_fds, opened_by}
use comp_p.Server.Keeping.{starts, round, marked, descriptors_conserved}
use comp_p.Server.Numbering.{IsOpen, requests_from, submit_lines-requests_from}

abbrev chunks : List Bytes
chunks = codes "ba" ∷ (codes "rrier 1" ++ (10 ∷ codes "Dis")) ∷ []

process_reads-frames_example : process_reads [] chunks ≡ frames [] (join chunks)
process_reads-frames_example =
    process_reads-frames chunks
      (omega arith, (unfold process_buffered_lines cut_lines in omega arith, tt))

process_reads_whole_example :
    join (process_reads [] chunks).0 ++ (process_reads [] chunks).1 ≡ join chunks
process_reads_whole_example =
    process_reads_whole chunks
      (omega arith, (unfold process_buffered_lines cut_lines in omega arith, tt))

abbrev half_open : Opening
half_open = record {
  fifos_ok = true;
  ready_ok = true;
  paths_ok = true;
  c2s = some 5;
  s2c = none;
  calloc_ok = true;
  mutex_ok = true;
  queue_ok = true;
  time = 1000;
}

abbrev member : ClientState
member = record zero_client { client_pid = 7; fifo_s2c_fd = some 5 }

abbrev member_queue : ClientQueue
member_queue = record { client = 7; requests = []; queued_count = 0; active = true }

abbrev pool : Threadpool
pool = record {
  shutting_down = false;
  pending_requests = 0;
  clients = member_queue ∷ [];
  next_client = some 7;
}

pool-IsOpen : IsOpen pool member member_queue
pool-IsOpen = record {
  up = refl;
  found = unfold find_client_queue in refl;
  active = refl;
  connected = refl;
}

abbrev two_lines : List Bytes
two_lines = codes "a" ∷ codes "b" ∷ []

submit_lines-requests_from_example :
    let (p', c') = submit_lines (λ n. (true, true, true)) 0 (pool, member) two_lines in
    (q' : ClientQueue) × IsOpen p' c' q'
    × (q'.requests ≡ [] ++ requests_from 7 0 two_lines)
    × (c'.requests_received ≡ 0 + length two_lines)
submit_lines-requests_from_example =
    submit_lines-requests_from 0 pool member member_queue two_lines pool-IsOpen (omega arith)

abbrev leaving : World
leaving = record {
  auth = none;
  handles = record { next_id = 1; canvases = []; sprites = []; placements = [] };
  client = member;
  log = [];
}

close_client_once_example :
    let (w', pool', released) = close_client 1000 leaving pool in
    (close_client 2000 w' pool' ≡ (w', pool', nothing_released))
    × (cleanup_client 2000 true w' pool' ≡ (w', pool', nothing_released))
close_client_once_example = close_client_once 1000 2000 true leaving pool

-- A round in which client 7 asks and both its FIFOs open.
abbrev first_round : Happening
first_round = record {
  opening = record half_open { s2c = some 6 };
  now = 1000;
  gone = λ pid. false;
  select = timed_out;
  reads = λ pid. [];
  allocations = λ pid k. (true, true, true);
}

abbrev no_clients : Server
no_clients = record {
  clients = [];
  world = leaving;
  pool = threadpool_create;
  released = nothing_released;
}

abbrev opened_first : List ℕ
opened_first = [] ++ opened_by first_round.opening 7 []

opened_first_lem : count 5 opened_first ≡ 1
unfolding count opened_by find_client opened_fd
opened_first_lem = refl

descriptors_conserved_example :
    let s = (main_round first_round 7 no_clients).0 in
    (count 5 opened_first ≡ count 5 (held_fds s.clients) + count 5 s.released.closed)
    × (count 5 opened_first
        ≡ count 5 (held_fds (marked s.clients)) + count 5 (close_clients 2000 s).released.closed)
descriptors_conserved_example =
    descriptors_conserved 2000 5 (round first_round 7 (starts leaving threadpool_create))
