-- ===== src/Threadpool/Tests.antt =====
-- The pool at concrete inputs.
use comp_p.Common.{
  ℕ, ◌+◌, ◌<◌, ◌≤◌, ◌≡◌, refl, true, false, List, [], ◌∷◌, ◌++◌, some, ◌⊎◌, Bytes, codes, arith,
}
use comp_p.ServerCommon.{ClientState, Request, zero_client}
use comp_p.Threadpool.{ClientQueue, Threadpool}
use comp_p.Threadpool.Queues.{
  threadpool_create, dequeue_fair_request, worker_turn, rotation, find_client_queue, ring, cycle,
  from, before, pop_request,
}
use comp_p.Threadpool.Valid.{IsPool, total}
use comp_p.Threadpool.Fair.{serve, ring_view, dequeue_fair_request-serve}
use comp_p.Threadpool.Turns.{dequeues, served_within}
use comp_p.Threadpool.History.{
  Call, register, submit, remove, dequeue, shutdown, run, run-IsPool, IsTurn, worker_turn-IsTurn,
}
use comp_p.Threadpool.Response.{Write, wrote, interrupted, is_closed}
use comp_p.Threadpool.Response.Window.{Log, answers}
use comp_p.Threadpool.Response.Order.{run_replies, replies-Log}
use comp_p.Threadpool.Response.Delivery.{IsBefore, too_early_stalls}
use comp_p.Threadpool.Response.Complete.{replies_arrive}

abbrev ask : ℕ → ℕ → Request
ask client seq = record { client = client; request_seq_num = seq; rpc_line = codes "HELP" }

abbrev busy_queue : ClientQueue
busy_queue = record {
  client = 7;
  requests = ask 7 0 ∷ ask 7 1 ∷ ask 7 2 ∷ [];
  queued_count = 3;
  active = true;
}

abbrev last_queue : ClientQueue
last_queue = record { client = 9; requests = ask 9 0 ∷ []; queued_count = 1; active = true }

abbrev served_queue : ClientQueue
served_queue = record { client = 9; requests = []; queued_count = 0; active = true }

abbrev two_clients : Threadpool
two_clients = record {
  shutting_down = false;
  pending_requests = 4;
  clients = busy_queue ∷ last_queue ∷ [];
  next_client = some 7;
}

two_clients-IsPool : IsPool two_clients
two_clients-IsPool = record {
  queues = (
    record { counted = refl; is_active = refl },
    (record { counted = refl; is_active = refl }, tt),
  );
  distinct = (((λ e. omega (arith, e)), tt), (tt, tt));
  pending = unfold total in refl;
  bounded = unfold total in omega arith;
  pointer = unfold find_client_queue in λ e. cc;
}

dequeue_fair_request-serve_example :
    ring_view (dequeue_fair_request two_clients) ≡ serve [] (rotation two_clients)
dequeue_fair_request-serve_example = dequeue_fair_request-serve two_clients two_clients-IsPool

-- The client with one request is served second, whatever the busy one has queued.
served_within_example :
    (k : ℕ) × (k ≤ 1) × ((dequeue_fair_request (dequeues k two_clients)).0 ≡ some (ask 9 0))
served_within_example =
    served_within 1 two_clients (busy_queue ∷ []) [] last_queue served_queue (ask 9 0) (omega arith)
      two_clients-IsPool (unfold rotation ring cycle from before in refl)
      (unfold pop_request in refl)

abbrev member : ClientState
member = record zero_client { client_pid = 7; fifo_s2c_fd = some 5 }

abbrev calls : List Call
calls =
    register true 7
    ∷ register true 9
    ∷ submit true true member (codes "HELP")
    ∷ dequeue
    ∷ remove 9
    ∷ shutdown
    ∷ []

run-IsPool_example : IsPool (run calls threadpool_create)
run-IsPool_example = run-IsPool calls (omega arith)

worker_turn-IsTurn_example :
    IsTurn (run calls threadpool_create) (worker_turn (run calls threadpool_create))
worker_turn-IsTurn_example = worker_turn-IsTurn calls (omega arith)

-- Responses of two bytes, "a\n", "b\n" and so on.
abbrev answer : ℕ → Bytes
answer n = (97 + n) ∷ 10 ∷ []

abbrev writes : List Write
writes = wrote 1 ∷ interrupted ∷ wrote 5 ∷ wrote 2 ∷ wrote 2 ∷ []

replies-Log_example :
    Log answer 0
      (run_replies answer (1 ∷ 0 ∷ []) writes member).0
      (run_replies answer (1 ∷ 0 ∷ []) writes member).2
replies-Log_example =
    replies-Log answer 100 (1 ∷ 0 ∷ []) writes member (omega arith) (omega arith, (omega arith, tt))
      refl (λ k. refl)

replies_arrive_example :
    let (out, left, c') = run_replies answer (1 ∷ 0 ∷ []) writes member in
    (left ≡ []) ⊎ ((k : ℕ) × (2 ≤ k) × (out ≡ answers answer 0 k))
replies_arrive_example =
    replies_arrive answer 100 2 (1 ∷ 0 ∷ []) writes member (omega arith)
      (omega arith, (omega arith, tt))
      (
        (0, (λ j less. absurd (omega arith)), omega arith),
        ((0, (λ j less. absurd (omega arith)), omega arith), tt),
      )
      (λ j less. two j less) refl (λ k. refl) (unfold is_closed in refl) tt
  where
    two : (j : ℕ) → j < 2 → (j ≡ 1) ⊎ ((j ≡ 0) ⊎ ⊥)
    two j less = ground arith

too_early_stalls_example :
    let sent = run_replies answer ([] ++ 1024 ∷ 0 ∷ []) writes member in
    (sent ≡ run_replies answer ([] ++ 0 ∷ []) writes member) × IsBefore answer 1024 sent.0 sent.2
too_early_stalls_example =
    too_early_stalls answer 2000 0 1024 [] (0 ∷ []) writes member (omega arith) tt (omega arith, tt)
      refl (λ k. refl) (omega arith) (omega arith) tt tt ((λ e. omega (arith, e)), tt)
