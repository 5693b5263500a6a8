-- ===== src/Service/Conserve.antt =====
-- threadpool.c, worker_main: where the requests are that the pool has accepted.
use comp_p.Common.{
  ℕ, suc, ◌+◌, ◌<◌, ◌≤◌, ◌≡◌, refl, sym, ap, subst, Bool, true, List, [], ◌∷◌, ◌++◌, Option, none,
  some, Bytes, length, length-append, arith,
}
use comp_p.Auth.{AuthDb}
use comp_p.Handles.{HandleStore}
use comp_p.ServerCommon.{ClientState, Request, u64_mod}
use comp_p.Threadpool.{ClientQueue}
use comp_p.Threadpool.Queues.{
  threadpool_create, threadpool_submit, threadpool_shutdown, find_client_queue, request_of,
}
use comp_p.Threadpool.Valid.{IsPool, total}
use comp_p.Threadpool.Preserve.{dequeue-IsPool}
use comp_p.Threadpool.Arrive.{register-IsPool, submit-IsPool}
use comp_p.Threadpool.Remove.{remove-IsPool}
use comp_p.Threadpool.History.{create-IsPool, shutdown-IsPool}
use comp_p.Threadpool.Requests.{
  queue_requests, accepted_by, tally, tally-append, queued, remove-queued, register-queued,
  dequeue-queued, submit-queued, worker_turn-work,
}
use comp_p.Threadpool.Response.{Write}
use comp_p.Rpc.{Outcome, answered, paused}
use comp_p.Service.{
  Job, fresh, waiting, replying, Service, job_after, worker_response, deliver, request_in,
}
use comp_p.Service.Ledger.{
  Finished, Ledger, Step, register, submit, remove, leave, set_disconnected, close_fds, open_client,
  touch, shutdown, take_next, handle, wake, reply, Reach, begin, later,
}

-- The requests whose jobs have ended.
unfoldable pub requests_of : List Finished → List Request
requests_of [] = []
requests_of (f ∷ fs) = f.request ∷ requests_of fs

-- The requests that the workers have in hand.
unfoldable pub held : List Job → List Request
held [] = []
held (j ∷ js) = request_in j ∷ held js

held-append : (js ks : List Job) → held (js ++ ks) ≡ held js ++ held ks
unfolding held
held-append [] ks = refl
held-append (j ∷ js) ks = ap (◌∷◌ (request_in j)) (held-append js ks)

request_in-job_after : (r : Request) (o : Outcome) → request_in (job_after r o) ≡ r
unfolding job_after
request_in-job_after r (answered response w) = refl
request_in-job_after r (paused id name next w) = refl

module _ (picks : Request → Bool) where
  pub tally-held :
      (left right : List Job) (j : Job)
      → tally picks (held (left ++ j ∷ right))
        ≡ tally picks (held (left ++ right)) + tally picks (request_in j ∷ [])
  unfolding held
  tally-held left right j =
      rw (held-append left (j ∷ right), held-append left right)
        (omega (
          arith,
          tally-append picks (held left) (request_in j ∷ held right),
          tally-append picks (held left) (held right),
          tally-append picks (request_in j ∷ []) (held right),
        ))

  -- Each accepted request is in exactly one place.
  abbrev pub Conserved : Ledger → Service → Type 0
  Conserved l s =
      tally picks l.accepted
      ≡ queued picks s.pool.clients
        + tally picks (held s.jobs)
        + tally picks (requests_of l.finished)
        + tally picks l.dropped

deliver-pool :
    (calls : List Write) (r : Request) (response : Option Bytes) (s : Service)
    → (deliver calls r response s).pool ≡ s.pool
unfolding deliver
deliver-pool calls r none s = refl
deliver-pool calls r (some response) s = refl

module _ (picks : Request → Bool) where
  Step-Conserved :
      {l : Ledger} {s : Service} {l' : Ledger} {s' : Service}
      → Step l s l' s'
      → IsPool s.pool
      → Conserved picks l s
      → Conserved picks l' s'
  unfolding held requests_of
  Step-Conserved (register {l} {s} calloc_ok pid) v c =
      omega (arith, c, register-queued picks calloc_ok s.pool pid)
  Step-Conserved (submit {l} {s} request_ok node_ok pid line) v c = omega (
    arith,
    c,
    submit-queued picks request_ok node_ok s.pool (s.clients pid) line,
    tally-append picks
        (accepted_by (threadpool_submit request_ok node_ok s.pool (s.clients pid) line).0
          (request_of (s.clients pid) line))
        l.accepted,
  )
  Step-Conserved (remove {l} {s} pid) v c = omega (
    arith,
    c,
    remove-queued picks s.pool pid,
    tally-append picks (queue_requests (find_client_queue pid s.pool.clients)) l.dropped,
  )
  Step-Conserved (leave now pid) v c = c
  Step-Conserved (set_disconnected pid) v c = c
  Step-Conserved (close_fds pid) v c = c
  Step-Conserved (open_client now pid c2s s2c) v c = c
  Step-Conserved (touch now pid) v c = c
  Step-Conserved shutdown v c = unfold threadpool_shutdown in c
  Step-Conserved (take_next {l} {s} r pool e) v c =
      let (found, rest) = worker_turn-work s.pool pool r e in
      rw (← rest) (
        omega (
          arith,
          c,
          dequeue-queued picks s.pool r v found,
          tally-append picks (r ∷ []) (held s.jobs),
        ))
  Step-Conserved (handle {l} {s} env r o left right e result) v c = omega (
    arith,
    c,
    ap (λ js. tally picks (held js)) e,
    tally-held picks left right (fresh r),
    tally-held picks left right (job_after r o),
    ap (λ q. tally picks (q ∷ [])) (request_in-job_after r o),
  )
  Step-Conserved (wake {l} {s} env r id name next o left right e result) v c = omega (
    arith,
    c,
    ap (λ js. tally picks (held js)) e,
    tally-held picks left right (waiting r id name next),
    tally-held picks left right (job_after r o),
    ap (λ q. tally picks (q ∷ [])) (request_in-job_after r o),
  )
  Step-Conserved (reply {l} {s} handler_ok copy_ok calls r response left right e) v c =
      rw (deliver-pool calls r (worker_response handler_ok copy_ok response) s) (
        omega (
          arith,
          c,
          ap (λ js. tally picks (held js)) e,
          tally-held picks left right (replying r response),
          tally-append picks (r ∷ []) (requests_of l.finished),
        ))

Step-IsPool :
    {l : Ledger} {s : Service} {l' : Ledger} {s' : Service}
    → Step l s l' s'
    → total s.pool.clients + 1 < u64_mod
    → IsPool s.pool
    → IsPool s'.pool
Step-IsPool (register {l} {s} calloc_ok pid) room v = register-IsPool calloc_ok s.pool pid v
Step-IsPool (submit {l} {s} request_ok node_ok pid line) room v =
    submit-IsPool request_ok node_ok s.pool (s.clients pid) line room v
Step-IsPool (remove {l} {s} pid) room v = remove-IsPool s.pool pid v
Step-IsPool (leave now pid) room v = v
Step-IsPool (set_disconnected pid) room v = v
Step-IsPool (close_fds pid) room v = v
Step-IsPool (open_client now pid c2s s2c) room v = v
Step-IsPool (touch now pid) room v = v
Step-IsPool (shutdown {l} {s}) room v = shutdown-IsPool s.pool v
Step-IsPool (take_next {l} {s} r pool e) room v =
    subst IsPool (worker_turn-work s.pool pool r e).1 (dequeue-IsPool s.pool v)
Step-IsPool (handle {l} {s} env r o left right e result) room v = v
Step-IsPool (wake {l} {s} env r id name next o left right e result) room v = v
Step-IsPool (reply {l} {s} handler_ok copy_ok calls r response left right e) room v =
    subst IsPool (sym (deliver-pool calls r (worker_response handler_ok copy_ok response) s)) v

pub length-accepted :
    {l : Ledger} {s : Service} {l' : Ledger} {s' : Service}
    → Step l s l' s'
    → length l.accepted ≤ length l'.accepted
length-accepted (register calloc_ok pid) = omega arith
length-accepted (submit {l} {s} request_ok node_ok pid line) = omega (
  arith,
  length-append
      (accepted_by (threadpool_submit request_ok node_ok s.pool (s.clients pid) line).0
        (request_of (s.clients pid) line))
      l.accepted,
)
length-accepted (remove pid) = omega arith
length-accepted (leave now pid) = omega arith
length-accepted (set_disconnected pid) = omega arith
length-accepted (close_fds pid) = omega arith
length-accepted (open_client now pid c2s s2c) = omega arith
length-accepted (touch now pid) = omega arith
length-accepted shutdown = omega arith
length-accepted (take_next r pool e) = omega arith
length-accepted (handle env r o left right e result) = omega arith
length-accepted (wake env r id name next o left right e result) = omega arith
length-accepted (reply handler_ok copy_ok calls r response left right e) = omega arith

abbrev every : Request → Bool
every r = true

tally-every : (rs : List Request) → tally every rs ≡ length rs
unfolding tally
tally-every [] = refl
tally-every (r ∷ rs) = ap suc (tally-every rs)

queued-every : (qs : List ClientQueue) → queued every qs ≡ total qs
unfolding queued total
queued-every [] = refl
queued-every (q ∷ qs) = omega (arith, tally-every q.requests, queued-every qs)

-- What holds of every state that the server comes to.
pub record IsSound (l : Ledger) (s : Service) : Type 0 where
  pub pool : IsPool s.pool
  pub conserved : (picks : Request → Bool) → Conserved picks l s

module _ {auth : Option AuthDb} {handles : HandleStore} {clients : ℕ → ClientState} where
  pub Reach-IsSound :
      {l : Ledger} {s : Service}
      → Reach auth handles clients l s
      → length l.accepted + 1 < u64_mod
      → IsSound l s
  Reach-IsSound begin room = record {
    pool = create-IsPool;
    conserved = λ picks. unfold threadpool_create queued tally held requests_of in refl;
  }
  Reach-IsSound (later {l} {l'} {s} {s'} r st) room =
      let sound = Reach-IsSound r (omega (arith, length-accepted st)) in
      let fewer : total s.pool.clients ≤ length l.accepted =
        omega (arith, sound.conserved every, queued-every s.pool.clients, tally-every l.accepted) in
      record {
        pool = Step-IsPool st (omega (arith, length-accepted st, fewer)) sound.pool;
        conserved = λ picks. Step-Conserved picks st sound.pool (sound.conserved picks);
      }

  -- In every interleaving of the main thread with any number of workers, whatever the requests do
  -- and wherever they wait, each request that the pool has accepted is in exactly one place: in the
  -- queue of its client, in the hands of one worker, among those whose job has ended, or among those
  -- that have gone with the queue of a removed client. So none is run twice, and none is lost but by
  -- the removal of its client. Fewer than 2^64 - 1 requests have been accepted.
  pub requests_conserved :
      {l : Ledger} {s : Service}
      → Reach auth handles clients l s
      → length l.accepted + 1 < u64_mod
      → (picks : Request → Bool)
      → tally picks l.accepted
        ≡ queued picks s.pool.clients
          + tally picks (held s.jobs)
          + tally picks (requests_of l.finished)
          + tally picks l.dropped
  requests_conserved r room picks = (Reach-IsSound r room).conserved picks
