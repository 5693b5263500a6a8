-- ===== src/Threadpool/Preserve.antt =====
-- threadpool.c, the invariant over a dequeue.
use comp_p.Common.{
  ℕ, suc, ◌+◌, ◌≤◌, ◌≡◌, ◌≢◌, refl, ap, ◌∙◌, subst, ◌||◌, List, [], ◌∷◌, ◌++◌, Option, none, some,
  ◌==◌, Option-cases, Bool-cases, inl, inr, All, All-drop, length, arith,
}
use comp_p.ServerCommon.{Request, dec64}
use comp_p.Threadpool.{ClientQueue, Threadpool}
use comp_p.Threadpool.Queues.{
  find_client_queue, from, head_client, tail, next_after, put_queue, pop_request, visit, rotation,
  is_nil, take_request, dequeue_fair_request,
}
use comp_p.Threadpool.Rotation.{Absent, Distinct, Distinct-split}
use comp_p.Threadpool.Valid.{IsPool, IsQueue, PointsInto, total}
use comp_p.Threadpool.Fair.{Visited, visit-Visited, Visited-Located}

pub put-IsQueue :
    (r : ClientQueue) (qs : List ClientQueue)
    → IsQueue r
    → All IsQueue qs
    → All IsQueue (put_queue r qs)
unfolding put_queue
put-IsQueue r [] i h = tt
put-IsQueue r (q ∷ qs) i h = ground (arith, put-IsQueue r qs i h.1)

put-Absent :
    (c : ℕ) (r : ClientQueue) (qs : List ClientQueue) → Absent c qs → Absent c (put_queue r qs)
unfolding put_queue
put-Absent c r [] h = tt
put-Absent c r (q ∷ qs) h = ground (arith, put-Absent c r qs h.1, h.0)

pub put-Distinct :
    (r : ClientQueue) (qs : List ClientQueue) → Distinct qs → Distinct (put_queue r qs)
unfolding put_queue
put-Distinct r [] h = tt
put-Distinct r (q ∷ qs) h = elim (Bool-cases (q.client == r.client)) [
  | inl same ↦ rw (same) (let e : q.client ≡ r.client = ground (arith, same) in rw (← e) h)
  | inr other ↦ rw (other) (put-Absent q.client r qs h.0, put-Distinct r qs h.1)
]

pub total-put :
    (r q : ClientQueue) (qs : List ClientQueue)
    → find_client_queue r.client qs ≡ some q
    → total (put_queue r qs) + length q.requests ≡ total qs + length r.requests
unfolding find_client_queue put_queue total
total-put r q [] h = absurd (cc)
total-put r q (x ∷ qs) h = ground (arith, total-put r q qs)

find-put_none :
    (c : ℕ) (r : ClientQueue) (qs : List ClientQueue)
    → find_client_queue c (put_queue r qs) ≡ none
    → find_client_queue c qs ≡ none
unfolding find_client_queue put_queue
find-put_none c r [] h = refl
find-put_none c r (x ∷ qs) h = ground (arith, find-put_none c r qs)

pub put-PointsInto :
    (o : Option ℕ) (r : ClientQueue) (qs : List ClientQueue)
    → PointsInto o qs
    → PointsInto o (put_queue r qs)
put-PointsInto none r qs h = unfold put_queue in rw h
put-PointsInto (some c) r qs h = λ e. h (find-put_none c r qs e)

pub find_split :
    (c : ℕ) (xs ys : List ClientQueue) (q : ClientQueue)
    → Absent c xs
    → q.client ≡ c
    → find_client_queue c (xs ++ q ∷ ys) ≡ some q
unfolding find_client_queue
find_split c [] ys q a e = ground arith
find_split c (x ∷ xs) ys q a e = ground (arith, find_split c xs ys q a.1 e)

pub head-PointsInto : (qs : List ClientQueue) → PointsInto (head_client qs) qs
unfolding head_client find_client_queue
head-PointsInto [] = refl
head-PointsInto (q ∷ qs) = λ e. ground arith

-- The neighbour of a queue is in the list.
next-found :
    (c d : ℕ) (qs : List ClientQueue)
    → head_client (tail (from c qs)) ≡ some d
    → find_client_queue d qs ≢ none
unfolding head_client from find_client_queue
next-found c d [] h = λ e. cc
next-found c d (q ∷ []) h = λ e. ground arith
next-found c d (q ∷ y ∷ qs) h = λ e. ground (arith, next-found c d (y ∷ qs))

next_after-PointsInto :
    (c : ℕ) (r : ClientQueue) (qs : List ClientQueue)
    → PointsInto (next_after c qs (put_queue r qs)) (put_queue r qs)
unfolding next_after
next_after-PointsInto c r qs = elim (Option-cases (head_client (tail (from c qs)))) [
  | inl last ↦ rw (last) (head-PointsInto (put_queue r qs))
  | inr (d, next) ↦ rw (next) (λ e. next-found c d qs next (find-put_none d r qs e))
]

pub record Popped (q q' : ClientQueue) (r : Request) : Type 0 where
  pub client : q'.client ≡ q.client
  pub requests : q.requests ≡ r ∷ q'.requests
  pub count : q'.queued_count ≡ dec64 q.queued_count
  pub active : q'.active ≡ q.active

pub pop-parts : (q q' : ClientQueue) (r : Request) → pop_request q ≡ some (r, q') → Popped q q' r
unfolding pop_request
pop-parts q q' r e = ground arith

pub length-le-total :
    (c : ℕ) (qs : List ClientQueue) (q : ClientQueue)
    → find_client_queue c qs ≡ some q
    → length q.requests ≤ total qs
unfolding find_client_queue total
length-le-total c [] q h = absurd (cc)
length-le-total c (x ∷ qs) q h = ground (arith, length-le-total c qs q)

taken-IsPool :
    (p : Threadpool) (r : Request) (q' q : ClientQueue)
    → IsPool p
    → Popped q q' r
    → IsQueue q
    → find_client_queue q'.client p.clients ≡ some q
    → IsPool (take_request p (r, q'))
unfolding take_request
taken-IsPool p r q' q v popped i found =
    let sum = total-put q' q p.clients found in
    let size = length-le-total q'.client p.clients q found in
    let one : length q.requests ≡ suc (length q'.requests) = ap length popped.requests in
    record {
      queues =
          put-IsQueue q' p.clients
            (record {
              counted = omega (arith, popped.count, i.counted);
              is_active = popped.active ∙ i.is_active;
            })
            v.queues;
      distinct = put-Distinct q' p.clients v.distinct;
      pending = omega (arith, v.pending, v.bounded);
      bounded = omega (arith, v.bounded);
      pointer = next_after-PointsInto q'.client q' p.clients;
    }

-- The queue that a request is taken from is the one of its client.
pub Visited-found :
    (p : Threadpool) (r : Request) (q' : ClientQueue) (w : Visited (rotation p) r q')
    → Distinct p.clients
    → find_client_queue q'.client p.clients ≡ some w.queue
Visited-found p r q' w distinct =
    let l = Visited-Located p r q' w in
    let popped = pop-parts w.queue q' r w.popped in
    let d = Distinct-split l.left l.right w.queue (subst Distinct l.place distinct) in
    rw (l.place, popped.client) (find_split w.queue.client l.left l.right w.queue d.0 refl)

-- A dequeue keeps the invariant.
pub dequeue-IsPool : (p : Threadpool) → IsPool p → IsPool (dequeue_fair_request p).1
unfolding dequeue_fair_request
dequeue-IsPool p v = elim (Bool-cases (p.pending_requests == 0 || is_nil p.clients)) [
  | inl idle ↦ rw (idle, dequeue_fair_request) v
  | inr busy ↦ elim (Option-cases (visit (rotation p))) [
    | inl miss ↦ rw (busy, miss, dequeue_fair_request) v
    | inr ((r, q'), hit) ↦
        rw (busy, hit, dequeue_fair_request) (taken r q' (visit-Visited (rotation p) r q' hit))
  ]
]
  where
    taken :
        (r : Request) (q' : ClientQueue)
        → Visited (rotation p) r q'
        → IsPool (take_request p (r, q'))
    taken r q' w =
        let l = Visited-Located p r q' w in
        let popped = pop-parts w.queue q' r w.popped in
        let there =
          (All-drop IsQueue l.left (w.queue ∷ l.right) (subst (All IsQueue) l.place v.queues)).0 in
        taken-IsPool p r q' w.queue v popped there (Visited-found p r q' w v.distinct)
