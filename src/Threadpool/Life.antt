-- ===== src/Threadpool/Life.antt =====
-- threadpool.c, threadpool_create and threadpool_destroy: the life of the pool as a whole. What the
-- allocator and the thread library do is an argument.
use comp_p.Common.{
  ℕ, zero, suc, ◌≡◌, refl, Bool, not, ◌||◌, List, [], ◌∷◌, ◌++◌, Option, none, some, ◌==◌,
  if◌then◌else◌, length, arith,
}
use comp_p.ServerCommon.{Request}
use comp_p.Threadpool.{ClientQueue, Threadpool}
use comp_p.Threadpool.Queues.{threadpool_create}
use comp_p.Threadpool.Valid.{IsPool, total}

-- The loop over pthread_create from thread `i` on: all are made, or this one is not.
unfoldable pub make_threads : (ℕ → Bool) → ℕ → ℕ → Option ℕ
make_threads thread_ok zero i = none
make_threads thread_ok (suc more) i =
    let later = make_threads thread_ok more (suc i) in if thread_ok i then later else some i

-- What the system does for threadpool_create.
pub record Resources : Type 0 where
  pub pool_ok : Bool
  pub workers_ok : Bool
  pub mutex_ok : Bool
  pub cond_ok : Bool
  pub thread_ok : ℕ → Bool

-- The pool, if it is made, and the threads that have been made and joined again.
unfoldable pub create_pool : Resources → ℕ → Bool → Option Threadpool × ℕ
unfolding make_threads
create_pool os worker_count has_handler =
    if worker_count == 0 || not has_handler
    then (none, 0)
    else if not os.pool_ok || not os.workers_ok
    then (none, 0)
    else if not os.mutex_ok || not os.cond_ok
    then (none, 0)
    else elim (make_threads os.thread_ok worker_count 0) [
      | none ↦ (some threadpool_create, 0)
      | some i ↦ (none, i)
    ]

-- The requests that threadpool_destroy frees when the workers have ended.
unfoldable pub left_over : List ClientQueue → List Request
left_over [] = []
left_over (q ∷ qs) = q.requests ++ left_over qs

-- After the join, the queues are as the last worker leaves them.
unfoldable pub threadpool_destroy : Threadpool → List Request
threadpool_destroy p = left_over p.clients

left_over-none : (qs : List ClientQueue) → total qs ≡ 0 → left_over qs ≡ []
unfolding total left_over
left_over-none [] h = refl
left_over-none (q ∷ qs) h = both q.requests (omega arith) (left_over-none qs (omega arith))
  where
    both : (rs : List Request) → length rs ≡ 0 → left_over qs ≡ [] → rs ++ left_over qs ≡ []
    both [] e ih = ih
    both (r ∷ rs) e ih = absurd (omega arith)

-- A worker ends only when no request is left, so the frees of threadpool_destroy find none.
pub threadpool_destroy-none :
    (p : Threadpool) → IsPool p → p.pending_requests ≡ 0 → threadpool_destroy p ≡ []
unfolding threadpool_destroy
threadpool_destroy-none p v idle = left_over-none p.clients (omega (arith, v.pending))
