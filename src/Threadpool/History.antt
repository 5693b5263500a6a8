-- ===== src/Threadpool/History.antt =====
-- threadpool.c, histories of calls on the pool, and the turn of a worker.
use comp_p.Common.{
  ℕ, suc, ◌+◌, ◌<◌, ◌≤◌, ◌≡◌, ◌≢◌, refl, sym, subst, Bool, true, false, List, [], ◌∷◌, Option, none,
  some, ◌==◌, Option-cases, Bool-cases, inl, inr, length, Bytes, arith,
}
use comp_p.ServerCommon.{Request, ClientState, dec64, u64_mod}
use comp_p.Threadpool.{Threadpool}
use comp_p.Threadpool.Queues.{
  threadpool_create, threadpool_register_client, threadpool_remove_client, threadpool_submit,
  threadpool_shutdown, dequeue_fair_request, Turn, worker_turn, sleep, exit, work, drop_requests,
  find_client_queue, take_request, enqueue, append_queue,
}
use comp_p.Threadpool.Valid.{IsPool, total}
use comp_p.Threadpool.Preserve.{dequeue-IsPool, length-le-total}
use comp_p.Threadpool.Arrive.{register-IsPool, submit-IsPool}
use comp_p.Threadpool.Remove.{remove-IsPool}
use comp_p.Threadpool.Fair.{dequeue_finds}

pub data Call : Type 0 where
  register : Bool → ℕ → Call
  remove : ℕ → Call
  submit : Bool → Bool → ClientState → Bytes → Call
  dequeue : Call
  shutdown : Call

unfoldable pub perform : Call → Threadpool → Threadpool
perform (register calloc_ok c) p = (threadpool_register_client calloc_ok p c).1
perform (remove c) p = threadpool_remove_client p c
perform (submit request_ok node_ok client line) p =
    (threadpool_submit request_ok node_ok p client line).1
perform dequeue p = (dequeue_fair_request p).1
perform shutdown p = threadpool_shutdown p

unfoldable pub run : List Call → Threadpool → Threadpool
run [] p = p
run (c ∷ cs) p = run cs (perform c p)

pub shutdown-IsPool : (p : Threadpool) → IsPool p → IsPool (threadpool_shutdown p)
unfolding threadpool_shutdown
shutdown-IsPool p v = record {
  queues = v.queues;
  distinct = v.distinct;
  pending = v.pending;
  bounded = v.bounded;
  pointer = v.pointer;
}

perform-IsPool :
    (c : Call) (p : Threadpool) → total p.clients + 1 < u64_mod → IsPool p → IsPool (perform c p)
unfolding perform
perform-IsPool (register calloc_ok c) p room v = register-IsPool calloc_ok p c v
perform-IsPool (remove c) p room v = remove-IsPool p c v
perform-IsPool (submit request_ok node_ok client line) p room v =
    submit-IsPool request_ok node_ok p client line room v
perform-IsPool dequeue p room v = dequeue-IsPool p v
perform-IsPool shutdown p room v = shutdown-IsPool p v

drop_requests-le :
    (rs : List Request) (n : ℕ) → length rs ≤ n → n < u64_mod → drop_requests rs n ≤ n
unfolding drop_requests
drop_requests-le [] n h b = omega arith
drop_requests-le (r ∷ rs) n h b =
    omega (arith, drop_requests-le rs (dec64 n) (omega arith) (omega arith))

pending-perform :
    (c : Call) (p : Threadpool)
    → total p.clients + 1 < u64_mod
    → IsPool p
    → (perform c p).pending_requests ≤ p.pending_requests + 1
unfolding perform threadpool_remove_client
pending-perform (register calloc_ok c) p room v =
    unfold threadpool_register_client append_queue in ground arith
pending-perform (remove c) p room v = elim (Option-cases (find_client_queue c p.clients)) [
  | inl miss ↦ rw (miss, threadpool_remove_client) (omega arith)
  | inr (q, hit) ↦
      rw (hit, threadpool_remove_client)
        (omega (
          arith,
          v.pending,
          drop_requests-le q.requests p.pending_requests
              (omega (arith, v.pending, length-le-total c p.clients q hit))
              (omega (arith, v.pending, v.bounded)),
        ))
]
pending-perform (submit request_ok node_ok client line) p room v =
    unfold threadpool_submit enqueue in ground (arith, v.pending)
pending-perform dequeue p room v =
    unfold dequeue_fair_request take_request in ground (arith, v.pending)
pending-perform shutdown p room v = unfold threadpool_shutdown in omega arith

run-IsPool_from :
    (cs : List Call) (p : Threadpool)
    → p.pending_requests + length cs < u64_mod
    → IsPool p
    → IsPool (run cs p)
unfolding run
run-IsPool_from [] p room v = v
run-IsPool_from (c ∷ cs) p room v =
    let small : total p.clients + 1 < u64_mod = omega (arith, v.pending) in
    run-IsPool_from cs (perform c p) (omega (arith, pending-perform c p small v))
      (perform-IsPool c p small v)

pub create-IsPool : IsPool threadpool_create
unfolding threadpool_create total
create-IsPool = record {
  queues = tt;
  distinct = tt;
  pending = refl;
  bounded = omega arith;
  pointer = refl;
}

-- After any history of fewer than 2^64 registrations, removals, submissions, dequeues and a
-- shutdown, allocations failing or not, no client has two queues, the counters of the queues and of
-- the pool are the numbers of requests that wait, and next_client is NULL only for the empty list
-- and else points to a queue of it.
pub run-IsPool : (cs : List Call) → length cs < u64_mod → IsPool (run cs threadpool_create)
run-IsPool cs room =
    run-IsPool_from cs threadpool_create (unfold threadpool_create in omega arith) create-IsPool

-- What a turn of a worker on the pool p may be.
unfoldable pub IsTurn : Threadpool → Turn → Type 0
IsTurn p sleep = (p.shutting_down ≡ false) × (p.pending_requests ≡ 0)
IsTurn p exit = (p.shutting_down ≡ true) × (p.pending_requests ≡ 0)
IsTurn p (work none p') = ⊥
IsTurn p (work (some r) p') =
    (p.pending_requests ≡ suc p'.pending_requests) × (p'.shutting_down ≡ p.shutting_down)

taken-pending :
    (p : Threadpool) (r : Request)
    → IsPool p
    → p.pending_requests ≢ 0
    → (dequeue_fair_request p).0 ≡ some r
    → (p.pending_requests ≡ suc (dequeue_fair_request p).1.pending_requests)
      × ((dequeue_fair_request p).1.shutting_down ≡ p.shutting_down)
unfolding dequeue_fair_request take_request
taken-pending p r v h e = ground (arith, v.pending, v.bounded)

work-IsTurn :
    (p : Threadpool) (d : Option Request × Threadpool) (r : Request)
    → d.0 ≡ some r
    → (p.pending_requests ≡ suc d.1.pending_requests) × (d.1.shutting_down ≡ p.shutting_down)
    → IsTurn p (work d.0 d.1)
unfolding IsTurn
work-IsTurn p (none, p') r e h = absurd (cc)
work-IsTurn p (some s, p') r e h = h

worker-IsTurn : (p : Threadpool) → IsPool p → IsTurn p (worker_turn p)
unfolding worker_turn IsTurn
worker-IsTurn p v = elim (Bool-cases (p.pending_requests == 0)) [
  | inl idle ↦ elim (Bool-cases p.shutting_down) [
    | inl down ↦ rw (idle, down, worker_turn, IsTurn) (down, ground arith)
    | inr up ↦ rw (idle, up, worker_turn, IsTurn) (up, ground arith)
  ]
  | inr busy ↦
      let h : p.pending_requests ≢ 0 = ground arith in
      let (r, e) = dequeue_finds p v h in
      let found = work-IsTurn p (dequeue_fair_request p) r e (taken-pending p r v h e) in
      elim (Bool-cases p.shutting_down) [
        | inl down ↦
            subst (IsTurn p) {x = work (dequeue_fair_request p).0 (dequeue_fair_request p).1}
              (sym (simp (busy, down, worker_turn))) found
        | inr up ↦
            subst (IsTurn p) {x = work (dequeue_fair_request p).0 (dequeue_fair_request p).1}
              (sym (simp (busy, up, worker_turn))) found
      ]
]

-- A worker sleeps only if no request waits, and ends only in a pool that shuts down and has no
-- request left; in every other case it gets a request, which the pool then no longer counts. This
-- holds after every history of fewer than 2^64 calls.
pub worker_turn-IsTurn :
    (cs : List Call)
    → length cs < u64_mod
    → IsTurn (run cs threadpool_create) (worker_turn (run cs threadpool_create))
worker_turn-IsTurn cs room = worker-IsTurn (run cs threadpool_create) (run-IsPool cs room)
