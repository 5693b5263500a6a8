-- ===== src/Threadpool/Arrive.antt =====
-- threadpool.c, the invariant over registration and submission.
use comp_p.Common.{
  ℕ, ◌+◌, ◌<◌, ◌≡◌, ◌≢◌, refl, sym, ap, ◌∙◌, Bool, List, [], ◌∷◌, ◌++◌, Option, none, some,
  Option-cases, inl, inr, All, All-append, length, length-append, Bytes, arith,
}
use comp_p.ServerCommon.{Request, ClientState, inc64, u64_mod}
use comp_p.Threadpool.{ClientQueue, Threadpool}
use comp_p.Threadpool.Queues.{
  find_client_queue, or_else, threadpool_register_client, append_queue, new_queue, enqueue,
  request_of, threadpool_submit,
}
use comp_p.Threadpool.Rotation.{Absent, Distinct}
use comp_p.Threadpool.Valid.{IsPool, IsQueue, PointsInto, total, total-append}
use comp_p.Threadpool.Preserve.{
  put-IsQueue, put-Distinct, total-put, put-PointsInto, length-le-total,
}

All-found :
    (c : ℕ) (qs : List ClientQueue) (q : ClientQueue)
    → All IsQueue qs
    → find_client_queue c qs ≡ some q
    → IsQueue q × (q.client ≡ c)
unfolding find_client_queue
All-found c [] q h e = absurd (cc)
All-found c (x ∷ qs) q h e = ground (arith, All-found c qs q h.1)

pub enqueue-IsPool :
    (p : Threadpool) (q : ClientQueue) (request : Request)
    → total p.clients + 1 < u64_mod
    → IsPool p
    → find_client_queue q.client p.clients ≡ some q
    → IsPool (enqueue p q request)
unfolding enqueue
enqueue-IsPool p q request room v hit =
    let q' : ClientQueue = record q {
      requests = q.requests ++ (request ∷ []);
      queued_count = inc64 q.queued_count;
    } in
    let (i, same) = All-found q.client p.clients q v.queues hit in
    let more : length q'.requests ≡ length q.requests + 1 =
      length-append q.requests (request ∷ []) in
    let sum = total-put q' q p.clients hit in
    let size = length-le-total q.client p.clients q hit in
    record {
      queues =
          put-IsQueue q' p.clients
            (record { counted = omega (arith, more, i.counted); is_active = i.is_active }) v.queues;
      distinct = put-Distinct q' p.clients v.distinct;
      pending = omega (arith, v.pending, more);
      bounded = omega (arith, more);
      pointer = put-PointsInto p.next_client q' p.clients v.pointer;
    }

-- A submission keeps the invariant, as long as the counters have room.
pub submit-IsPool :
    (request_ok node_ok : Bool) (p : Threadpool) (client : ClientState) (line : Bytes)
    → total p.clients + 1 < u64_mod
    → IsPool p
    → IsPool (threadpool_submit request_ok node_ok p client line).1
unfolding threadpool_submit
submit-IsPool request_ok node_ok p client line room v =
    elim (Option-cases (find_client_queue client.client_pid p.clients)) [
      | inl miss ↦ ground (arith, miss)
      | inr (q, hit) ↦
          let (i, same) = All-found client.client_pid p.clients q v.queues hit in
          ground (
            arith,
            hit,
            enqueue-IsPool p q (request_of client line) room v
                (ap (λ k. find_client_queue k p.clients) same ∙ hit),
          )
    ]

Absent-end :
    (c : ℕ) (qs : List ClientQueue) (r : ClientQueue)
    → r.client ≢ c
    → Absent c qs
    → Absent c (qs ++ (r ∷ []))
Absent-end c qs r ne h = All-append (λ q. q.client ≢ c) qs (r ∷ []) h (ne, tt)

find_none-Absent : (c : ℕ) (qs : List ClientQueue) → find_client_queue c qs ≡ none → Absent c qs
unfolding find_client_queue
find_none-Absent c [] h = tt
find_none-Absent c (q ∷ qs) h = (ground arith, find_none-Absent c qs (ground arith))

Distinct-end :
    (qs : List ClientQueue) (r : ClientQueue)
    → Absent r.client qs
    → Distinct qs
    → Distinct (qs ++ (r ∷ []))
Distinct-end [] r a d = (tt, tt)
Distinct-end (q ∷ qs) r a d =
    (Absent-end q.client qs r (λ e. a.0 (sym e)) d.0, Distinct-end qs r a.1 d.1)

find-end_none :
    (c : ℕ) (qs : List ClientQueue) (r : ClientQueue)
    → find_client_queue c (qs ++ (r ∷ [])) ≡ none
    → (find_client_queue c qs ≡ none) × (r.client ≢ c)
unfolding find_client_queue
find-end_none c [] r h = ground arith
find-end_none c (q ∷ qs) r h = ground (arith, find-end_none c qs r)

append_queue-IsPool :
    (p : Threadpool) (q : ClientQueue)
    → IsPool p
    → find_client_queue q.client p.clients ≡ none
    → q.requests ≡ []
    → IsQueue q
    → IsPool (append_queue p q)
unfolding append_queue
append_queue-IsPool p q v fresh empty i =
    let size : total (q ∷ []) ≡ 0 = unfold total in rw empty (omega arith) in
    record {
      queues = All-append IsQueue p.clients (q ∷ []) v.queues (i, tt);
      distinct = Distinct-end p.clients q (find_none-Absent q.client p.clients fresh) v.distinct;
      pending = omega (arith, v.pending, total-append p.clients (q ∷ []));
      bounded = omega (arith, v.bounded, total-append p.clients (q ∷ []));
      pointer = pointer p.next_client v.pointer;
    }
  where
    pointer :
        (o : Option ℕ)
        → PointsInto o p.clients
        → PointsInto (or_else o (some q.client)) (p.clients ++ (q ∷ []))
    pointer none h = λ e. (find-end_none q.client p.clients q e).1 refl
    pointer (some c) h = λ e. h (find-end_none c p.clients q e).0

-- Registration keeps the invariant.
pub register-IsPool :
    (calloc_ok : Bool) (p : Threadpool) (c : ℕ)
    → IsPool p
    → IsPool (threadpool_register_client calloc_ok p c).1
unfolding threadpool_register_client
register-IsPool calloc_ok p c v = elim (Option-cases (find_client_queue c p.clients)) [
  | inr (q, hit) ↦ ground (arith, hit)
  | inl miss ↦ ground (
    arith,
    miss,
    append_queue-IsPool p (new_queue c) v (unfold new_queue in miss) (unfold new_queue in refl)
        (unfold new_queue in record { counted = refl; is_active = refl }),
  )
]
