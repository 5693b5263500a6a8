-- ===== src/Threadpool/Remove.antt =====
-- threadpool.c, the invariant over the removal of a client.
use comp_p.Common.{
  ℕ, ◌+◌, ◌-◌, ◌<◌, ◌≤◌, ◌≡◌, ◌≢◌, refl, sym, ◌∙◌, List, [], ◌∷◌, ◌++◌, Option, none, some, ◌==◌,
  if◌then◌else◌, Option-cases, Bool-cases, inl, inr, All, length, arith,
}
use comp_p.ServerCommon.{Request, dec64, u64_mod}
use comp_p.Threadpool.{ClientQueue, Threadpool}
use comp_p.Threadpool.Queues.{
  find_client_queue, from, before, head_client, tail, next_after, drop_requests,
  unlink_client_queue, step_past, threadpool_remove_client,
}
use comp_p.Threadpool.Rotation.{Absent, Distinct}
use comp_p.Threadpool.Valid.{IsPool, IsQueue, PointsInto, total}
use comp_p.Threadpool.Preserve.{length-le-total, head-PointsInto}

-- The list without the first queue of the client.
unfoldable pub removed : ℕ → List ClientQueue → List ClientQueue
removed c qs = before c qs ++ tail (from c qs)

pub removed-cons :
    (c : ℕ) (q : ClientQueue) (qs : List ClientQueue)
    → removed c (q ∷ qs) ≡ (if q.client == c then qs else q ∷ removed c qs)
unfolding removed before from
removed-cons c q qs = ground arith

removed-IsQueue : (c : ℕ) (qs : List ClientQueue) → All IsQueue qs → All IsQueue (removed c qs)
removed-IsQueue c [] h = unfold removed before from in tt
removed-IsQueue c (q ∷ qs) h = rw (removed-cons c q qs) (ground (arith, removed-IsQueue c qs h.1))

removed-Absent : (c d : ℕ) (qs : List ClientQueue) → Absent d qs → Absent d (removed c qs)
removed-Absent c d [] h = unfold removed before from in tt
removed-Absent c d (q ∷ qs) h = rw (removed-cons c q qs) (ground (arith, removed-Absent c d qs h.1))

removed-Distinct : (c : ℕ) (qs : List ClientQueue) → Distinct qs → Distinct (removed c qs)
removed-Distinct c [] h = unfold removed before from in tt
removed-Distinct c (q ∷ qs) h = elim (Bool-cases (q.client == c)) [
  | inl hit ↦ rw (removed-cons c q qs, hit) h.1
  | inr miss ↦
      rw (removed-cons c q qs, miss) (removed-Absent c q.client qs h.0, removed-Distinct c qs h.1)
]

total-removed :
    (c : ℕ) (qs : List ClientQueue) (q : ClientQueue)
    → find_client_queue c qs ≡ some q
    → total (removed c qs) + length q.requests ≡ total qs
unfolding find_client_queue total
total-removed c [] q h = absurd (cc)
total-removed c (x ∷ qs) q h = ground (arith, removed-cons c x qs, total-removed c qs q)

-- Another client is found as before.
find-removed :
    (c d : ℕ) (qs : List ClientQueue)
    → d ≢ c
    → find_client_queue d (removed c qs) ≡ find_client_queue d qs
unfolding find_client_queue
find-removed c d [] ne = unfold removed before from in refl
find-removed c d (q ∷ qs) ne = rw (removed-cons c q qs) (ground (arith, find-removed c d qs ne))

neighbour-removed :
    (c d : ℕ) (qs : List ClientQueue)
    → head_client (tail (from c qs)) ≡ some d
    → find_client_queue d (removed c qs) ≢ none
unfolding from find_client_queue head_client
neighbour-removed c d [] h = absurd (cc)
neighbour-removed c d (q ∷ []) h = absurd (ground arith)
neighbour-removed c d (q ∷ y ∷ qs) h =
    rw (removed-cons c q (y ∷ qs)) (ground (arith, neighbour-removed c d (y ∷ qs)))

next_after-removed :
    (c : ℕ) (qs : List ClientQueue) → PointsInto (next_after c qs (removed c qs)) (removed c qs)
unfolding next_after
next_after-removed c qs = elim (Option-cases (head_client (tail (from c qs)))) [
  | inl last ↦ rw (last) (head-PointsInto (removed c qs))
  | inr (d, next) ↦ rw (next) (neighbour-removed c d qs next)
]

drop_requests-lem :
    (rs : List Request) (n : ℕ) → length rs ≤ n → n < u64_mod → drop_requests rs n ≡ n - length rs
unfolding drop_requests
drop_requests-lem [] n h b = omega arith
drop_requests-lem (r ∷ rs) n h b =
    omega (arith, drop_requests-lem rs (dec64 n) (omega arith) (omega arith))

step_past-removed :
    (o : Option ℕ) (c : ℕ) (qs : List ClientQueue)
    → find_client_queue c qs ≢ none
    → PointsInto o qs
    → PointsInto (step_past o c (next_after c qs (removed c qs))) (removed c qs)
unfolding step_past
step_past-removed none c qs there v = absurd (there (rw v (unfold find_client_queue in refl)))
step_past-removed (some n) c qs there v = elim (Bool-cases (n == c)) [
  | inl same ↦ rw (same) (next_after-removed c qs)
  | inr other ↦ rw (other) (λ e. v (sym (find-removed c n qs (ground arith)) ∙ e))
]

-- Removal keeps the invariant.
pub remove-IsPool : (p : Threadpool) (c : ℕ) → IsPool p → IsPool (threadpool_remove_client p c)
unfolding threadpool_remove_client unlink_client_queue removed
remove-IsPool p c v = elim (Option-cases (find_client_queue c p.clients)) [
  | inl miss ↦ rw (miss, threadpool_remove_client) v
  | inr (q, hit) ↦
      let size = length-le-total c p.clients q hit in
      let sum = total-removed c p.clients q hit in
      rw (hit, threadpool_remove_client)
        (record {
          queues = removed-IsQueue c p.clients v.queues;
          distinct = removed-Distinct c p.clients v.distinct;
          pending =
              drop_requests-lem q.requests p.pending_requests (omega (arith, v.pending))
                (omega (arith, v.pending, v.bounded))
              ∙ omega (arith, v.pending);
          bounded = omega (arith, v.bounded);
          pointer = step_past-removed p.next_client c p.clients (λ e. cc (hit, e)) v.pointer;
        })
]
