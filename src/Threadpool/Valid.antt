-- ===== src/Threadpool/Valid.antt =====
-- The invariant of the pool: its counters agree with the queues, no client has two queues, and
-- next_client points into the list.
use comp_p.Common.{
  ℕ, ◌+◌, ◌<◌, ◌≡◌, ◌≢◌, refl, sym, ap, subst, true, List, [], ◌∷◌, ◌++◌, Option, none, some, All,
  All-append, All-drop, All-front, length, arith,
}
use comp_p.ServerCommon.{u64_mod}
use comp_p.Threadpool.{ClientQueue, Threadpool}
use comp_p.Threadpool.Queues.{
  find_client_queue, from, before, head_client, or_else, pop_request, cycle, ring, rotation,
}
use comp_p.Threadpool.Rotation.{Distinct, before-append-from}

pub record IsQueue (q : ClientQueue) : Type 0 where
  pub counted : q.queued_count ≡ length q.requests
  pub is_active : q.active ≡ true

-- The requests that wait in all queues.
unfoldable pub total : List ClientQueue → ℕ
total [] = 0
total (q ∷ qs) = length q.requests + total qs

-- The pointer next_client is NULL for the empty list, and else points to a queue of the list.
abbrev pub PointsInto : Option ℕ → List ClientQueue → Type 0
PointsInto none qs = qs ≡ []
PointsInto (some c) qs = find_client_queue c qs ≢ none

pub record IsPool (p : Threadpool) : Type 0 where
  pub queues : All IsQueue p.clients
  pub distinct : Distinct p.clients
  pub pending : p.pending_requests ≡ total p.clients
  pub bounded : total p.clients < u64_mod
  pub pointer : PointsInto p.next_client p.clients

pub total-append : (xs ys : List ClientQueue) → total (xs ++ ys) ≡ total xs + total ys
unfolding total
total-append [] ys = omega arith
total-append (q ∷ xs) ys = omega (arith, total-append xs ys)

pub total-ring : (o : Option ℕ) (qs : List ClientQueue) → o ≢ none → total (ring o qs) ≡ total qs
unfolding ring cycle
total-ring none qs h = absurd (h refl)
total-ring (some c) qs h = omega (
  arith,
  total-append (from c qs) (before c qs),
  total-append (before c qs) (from c qs),
  ap total (before-append-from c qs),
)

-- The ring has all queues of the list.
pub total-rotation : (p : Threadpool) → total (rotation p) ≡ total p.clients
unfolding rotation
total-rotation p = go p.next_client p.clients
  where
    go :
        (o : Option ℕ) (qs : List ClientQueue)
        → total (ring (or_else o (head_client qs)) qs) ≡ total qs
    go (some c) qs = total-ring (some c) qs (λ e. cc)
    go none [] = unfold head_client ring in refl
    go none (q ∷ qs) = unfold head_client in total-ring (some q.client) (q ∷ qs) (λ e. cc)

abbrev pub IsIdle : ClientQueue → Type 0
IsIdle q = pop_request q ≡ none

All-ring : (o : Option ℕ) (qs : List ClientQueue) → All IsQueue qs → All IsQueue (ring o qs)
unfolding ring cycle
All-ring none qs h = tt
All-ring (some c) qs h =
    let h' : All IsQueue (before c qs ++ from c qs) =
      subst (All IsQueue) (sym (before-append-from c qs)) h in
    All-append IsQueue (from c qs) (before c qs) (All-drop IsQueue (before c qs) (from c qs) h')
      (All-front IsQueue (before c qs) (from c qs) h')

pub rotation-IsQueue : (p : Threadpool) → All IsQueue p.clients → All IsQueue (rotation p)
unfolding rotation
rotation-IsQueue p h = All-ring (or_else p.next_client (head_client p.clients)) p.clients h

-- Queues that all are idle hold nothing.
pub IsIdle-total : (qs : List ClientQueue) → All IsQueue qs → All IsIdle qs → total qs ≡ 0
unfolding total pop_request
IsIdle-total [] h i = refl
IsIdle-total (q ∷ qs) h i = ground (arith, IsIdle-total qs h.1 i.1)

pub total-IsIdle : (qs : List ClientQueue) → total qs ≡ 0 → All IsIdle qs
unfolding total pop_request
total-IsIdle [] h = tt
total-IsIdle (q ∷ qs) h = (ground arith, total-IsIdle qs (omega arith))
