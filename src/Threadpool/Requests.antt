-- ===== src/Threadpool/Requests.antt =====
-- threadpool.c, the requests themselves: where each of them is after an operation on the queues. A
-- test picks requests out, and they are counted.
use comp_p.Common.{
  ℕ, suc, ◌+◌, ◌≡◌, ◌≢◌, ap, ◌∙◌, Bool, ◌||◌, List, [], ◌∷◌, ◌++◌, Option, none, some, ◌==◌,
  if◌then◌else◌, inl, inr, Bytes, Bool-cases, Option-cases, arith,
}
use comp_p.ServerCommon.{ClientState, Request, inc64}
use comp_p.Threadpool.{
  ClientQueue, Threadpool, Status, ok, no_memory, exists, shut_down, not_connected,
}
use comp_p.Threadpool.Queues.{
  find_client_queue, put_queue, visit, rotation, is_nil, take_request, dequeue_fair_request,
  new_queue, append_queue, threadpool_register_client, threadpool_remove_client,
  unlink_client_queue, request_of, enqueue, threadpool_submit, worker_turn, work,
}
use comp_p.Threadpool.Valid.{IsPool}
use comp_p.Threadpool.Fair.{visit-Visited}
use comp_p.Threadpool.Preserve.{Popped, pop-parts, Visited-found}
use comp_p.Threadpool.Remove.{removed, removed-cons}

-- The requests of a queue that is found, if it is.
unfoldable pub queue_requests : Option ClientQueue → List Request
queue_requests none = []
queue_requests (some q) = q.requests

module _ (picks : Request → Bool) where
  unfoldable pub tally : List Request → ℕ
  tally [] = 0
  tally (r ∷ rs) = if picks r then suc (tally rs) else tally rs

  pub tally-append : (rs ts : List Request) → tally (rs ++ ts) ≡ tally rs + tally ts
  unfolding tally
  tally-append [] ts = omega arith
  tally-append (r ∷ rs) ts = ground (arith, tally-append rs ts)

  -- The requests that wait in all queues.
  unfoldable pub queued : List ClientQueue → ℕ
  queued [] = 0
  queued (q ∷ qs) = tally q.requests + queued qs

  queued-append : (xs ys : List ClientQueue) → queued (xs ++ ys) ≡ queued xs + queued ys
  unfolding queued
  queued-append [] ys = omega arith
  queued-append (q ∷ xs) ys = omega (arith, queued-append xs ys)

  queued-put :
      (r q : ClientQueue) (qs : List ClientQueue)
      → find_client_queue r.client qs ≡ some q
      → queued (put_queue r qs) + tally q.requests ≡ queued qs + tally r.requests
  unfolding find_client_queue put_queue queued
  queued-put r q [] h = absurd (cc)
  queued-put r q (x ∷ qs) h = ground (arith, queued-put r q qs)

  queued-removed :
      (c : ℕ) (qs : List ClientQueue) (q : ClientQueue)
      → find_client_queue c qs ≡ some q
      → queued (removed c qs) + tally q.requests ≡ queued qs
  unfolding find_client_queue queued
  queued-removed c [] q h = absurd (cc)
  queued-removed c (x ∷ qs) q h = ground (arith, removed-cons c x qs, queued-removed c qs q)

  -- The requests of a removed client leave with its queue.
  pub remove-queued :
      (p : Threadpool) (c : ℕ)
      → queued (threadpool_remove_client p c).clients
          + tally (queue_requests (find_client_queue c p.clients))
        ≡ queued p.clients
  unfolding threadpool_remove_client unlink_client_queue queue_requests removed
  remove-queued p c = elim (Option-cases (find_client_queue c p.clients)) [
    | inl miss ↦
        rw (miss, threadpool_remove_client, queue_requests)
          (unfold tally queue_requests in omega arith)
    | inr (q, hit) ↦
        rw (hit, threadpool_remove_client, queue_requests) (queued-removed c p.clients q hit)
  ]

  pub register-queued :
      (calloc_ok : Bool) (p : Threadpool) (c : ℕ)
      → queued (threadpool_register_client calloc_ok p c).1.clients ≡ queued p.clients
  unfolding threadpool_register_client append_queue new_queue queued tally
  register-queued calloc_ok p c = ground (arith, queued-append p.clients (new_queue c ∷ []))

  taken-queued :
      (p : Threadpool) (r : Request) (q q' : ClientQueue)
      → Popped q q' r
      → find_client_queue q'.client p.clients ≡ some q
      → queued (take_request p (r, q')).clients + tally (r ∷ []) ≡ queued p.clients
  unfolding take_request tally
  taken-queued p r q q' popped found =
      let one : tally q.requests ≡ tally (r ∷ q'.requests) = ap tally popped.requests in
      let both = queued-put q' q p.clients found in ground (arith, one, both)

  -- The request that is dequeued leaves the queues, and it alone.
  pub dequeue-queued :
      (p : Threadpool) (r : Request)
      → IsPool p
      → (dequeue_fair_request p).0 ≡ some r
      → queued (dequeue_fair_request p).1.clients + tally (r ∷ []) ≡ queued p.clients
  unfolding dequeue_fair_request
  dequeue-queued p r v e = elim (Bool-cases (p.pending_requests == 0 || is_nil p.clients)) [
    | inl idle ↦ absurd (none_some (rw (idle, dequeue_fair_request) at e))
    | inr busy ↦ elim (Option-cases (visit (rotation p))) [
      | inl miss ↦ absurd (none_some (rw (busy, miss, dequeue_fair_request) at e))
      | inr ((r', q'), hit) ↦
          let w = visit-Visited (rotation p) r' q' hit in
          let same : r' ≡ r = some_eq (rw (busy, hit, dequeue_fair_request) at e) in
          rw (busy, hit, dequeue_fair_request, ← same)
            (taken-queued p r' w.queue q' (pop-parts w.queue q' r' w.popped)
              (Visited-found p r' q' w v.distinct))
    ]
  ]
    where
      none_some : {a : Request} → none ≢ some a
      none_some e = cc e

      some_eq : {a b : Request} → some a ≡ some b → a ≡ b
      some_eq e = cc e

-- What threadpool_submit adds to the queues: the request, if it returns 0.
unfoldable pub accepted_by : Status → Request → List Request
accepted_by ok r = r ∷ []
accepted_by no_memory r = []
accepted_by exists r = []
accepted_by shut_down r = []
accepted_by not_connected r = []

find-same :
    (c : ℕ) (qs : List ClientQueue) (q : ClientQueue)
    → find_client_queue c qs ≡ some q
    → q.client ≡ c
unfolding find_client_queue
find-same c [] q e = absurd (cc)
find-same c (x ∷ qs) q e = ground (arith, find-same c qs q)

module _ (picks : Request → Bool) where
  enqueue-queued :
      (p : Threadpool) (q : ClientQueue) (r : Request)
      → find_client_queue q.client p.clients ≡ some q
      → queued picks (enqueue p q r).clients ≡ queued picks p.clients + tally picks (r ∷ [])
  unfolding enqueue
  enqueue-queued p q r found = omega (
    arith,
    queued-put picks
        (record q { requests = q.requests ++ (r ∷ []); queued_count = inc64 q.queued_count }) q
        p.clients found,
    tally-append picks q.requests (r ∷ []),
  )

  -- A request waits in a queue exactly if its submission succeeds.
  pub submit-queued :
      (request_ok node_ok : Bool) (p : Threadpool) (client : ClientState) (line : Bytes)
      → let (status, p', client') = threadpool_submit request_ok node_ok p client line in
        queued picks p'.clients
        ≡ queued picks p.clients + tally picks (accepted_by status (request_of client line))
  unfolding threadpool_submit accepted_by tally
  submit-queued request_ok node_ok p client line =
      elim (Option-cases (find_client_queue client.client_pid p.clients)) [
        | inl miss ↦ ground (arith, miss)
        | inr (q, hit) ↦
            let same = find-same client.client_pid p.clients q hit in
            let here = ap (λ k. find_client_queue k p.clients) same ∙ hit in
            ground (arith, hit, enqueue-queued p q (request_of client line) here)
      ]

-- A turn that is work has dequeued a request.
pub worker_turn-work :
    (p p' : Threadpool) (r : Request)
    → worker_turn p ≡ work (some r) p'
    → ((dequeue_fair_request p).0 ≡ some r) × ((dequeue_fair_request p).1 ≡ p')
unfolding worker_turn
worker_turn-work p p' r e = ground arith
