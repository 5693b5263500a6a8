-- ===== src/Service/Ordered.antt =====
-- threadpool.c, worker_main and send_ordered_response, with the handler of rpc.c: what each client of
-- the server reads.
use comp_p.Common.{
  ℕ, ◌+◌, ◌<◌, ◌≡◌, ◌⊎◌, refl, subst, Bool, true, false, [], Option, some, Bytes, length, arith,
}
use comp_p.Auth.{AuthDb}
use comp_p.Handles.{HandleStore}
use comp_p.ServerCommon.{ClientState, Request, max_pending_responses, u64_mod}
use comp_p.Threadpool.Queues.{threadpool_submit, request_of}
use comp_p.Threadpool.Requests.{tally}
use comp_p.Threadpool.Response.Window.{answers, Log, Log-nil}
use comp_p.Threadpool.Response.Order.{fresh-IsBuffer}
use comp_p.Rpc.Request.{rpc_client_disconnected}
use comp_p.Rpc.Untouched.{left-SameReplies}
use comp_p.Service.{Service, world_of, world_after, worker_response}
use comp_p.Service.Ledger.{
  Ledger, Step, register, submit, remove, leave, set_disconnected, close_fds, open_client, touch,
  shutdown, take_next, handle, wake, reply, Reach, begin, later,
}
use comp_p.Service.Conserve.{Conserved, length-accepted, Reach-IsSound}
use comp_p.Service.Aside.{submit-IsSubmission, handled-SameReplies, woken-SameReplies}
use comp_p.Service.Unique.{IsNumbered, AllNumbered, Step-AllNumbered}
use comp_p.Service.Order.{response_to, IsOrdered}
use comp_p.Service.Pending.{job-IsPending}
use comp_p.Service.Kept.{put-IsOrdered, same-IsOrdered, submitted-IsOrdered, answered-IsOrdered}

abbrev AllOrdered : Ledger → Service → Type 0
AllOrdered l s = (pid : ℕ) → IsOrdered pid l.finished (s.output pid) (s.clients pid)

Step-AllOrdered :
    {l : Ledger} {s : Service} {l' : Ledger} {s' : Service}
    → Step l s l' s'
    → length l.accepted + max_pending_responses + 1 < u64_mod
    → ((picks : Request → Bool) → Conserved picks l s)
    → AllNumbered l s
    → AllOrdered l s
    → AllOrdered l' s'
Step-AllOrdered (register calloc_ok pid) room conserved n o = o
Step-AllOrdered (submit {l} {s} request_ok node_ok k line) room conserved n o = λ pid.
    submitted-IsOrdered pid k l.finished (s.output pid) (request_of (s.clients k) line)
      (threadpool_submit request_ok node_ok s.pool (s.clients k) line) s.clients
      (omega (arith, (n k).counted))
      (submit-IsSubmission request_ok node_ok s.pool (s.clients k) line) (o pid)
Step-AllOrdered (remove k) room conserved n o = o
Step-AllOrdered (leave {l} {s} now k) room conserved n o = λ pid.
    same-IsOrdered pid k l.finished (s.output pid)
      (rpc_client_disconnected now (world_of s k)).client s.clients
      (left-SameReplies now (world_of s k)) (o pid)
Step-AllOrdered (set_disconnected {l} {s} k) room conserved n o = λ pid.
    put-IsOrdered pid k l.finished (s.output pid) (record (s.clients k) { disconnected = true })
      s.clients (omega arith) refl refl (λ up. absurd (cc up)) (o pid)
Step-AllOrdered (close_fds {l} {s} k) room conserved n o = λ pid.
    put-IsOrdered pid k l.finished (s.output pid) _ s.clients (omega arith) refl refl (λ up. up)
      (o pid)
Step-AllOrdered (open_client {l} {s} now k c2s s2c) room conserved n o = λ pid.
    put-IsOrdered pid k l.finished (s.output pid) _ s.clients (omega arith) refl refl (λ up. up)
      (o pid)
Step-AllOrdered (touch {l} {s} now k) room conserved n o = λ pid.
    put-IsOrdered pid k l.finished (s.output pid) _ s.clients (omega arith) refl refl (λ up. up)
      (o pid)
Step-AllOrdered shutdown room conserved n o = o
Step-AllOrdered (take_next r pool e) room conserved n o = o
Step-AllOrdered (handle {l} {s} env r result left right e h) room conserved n o = λ pid.
    same-IsOrdered pid r.client l.finished (s.output pid) (world_after result).client s.clients
      (handled-SameReplies env (world_of s r.client) r.rpc_line result h) (o pid)
Step-AllOrdered (wake {l} {s} env r id name next result left right e h) room conserved n o = λ pid.
    same-IsOrdered pid r.client l.finished (s.output pid) (world_after result).client s.clients
      (woken-SameReplies env (world_of s r.client) id name next result h) (o pid)
Step-AllOrdered (reply {l} {s} handler_ok copy_ok calls r response left right e) room conserved n
      o =
    λ pid.
      let pending = job-IsPending l s r response left right e conserved (n r.client) in
      answered-IsOrdered pid l.finished calls r (worker_response handler_ok copy_ok response) s
        pending.no_reply (omega (arith, (n pid).counted)) pending.given (o pid)

-- A client that has just come: no request, no response, and no mark.
pub record IsNew (pid : ℕ) (c : ClientState) : Type 0 where
  pub pid_of : c.client_pid ≡ pid
  pub none_received : c.requests_received ≡ 0
  pub none_sent : c.responses_sent ≡ 0
  pub no_pending : (k : ℕ) → (c.pending_responses k).ready ≡ false
  pub connected : c.disconnected ≡ false

IsNew-IsOrdered : (pid : ℕ) (c : ClientState) → IsNew pid c → IsOrdered pid [] [] c
IsNew-IsOrdered pid c new = record {
  answer = λ n. [];
  buffer = fresh-IsBuffer (λ n. []) c.requests_received c new.none_sent new.no_pending;
  log = subst (λ n. Log (λ k. []) n [] c) new.none_sent (Log-nil (λ k. []) c);
  waits = λ k ready. absurd (cc (ready, new.no_pending k));
  left = λ k low. absurd (omega (arith, new.none_sent, low));
  torn = λ down. absurd (cc (down, new.connected));
}

IsNew-IsNumbered :
    (l : Ledger) (cs : ℕ → ClientState) (pid : ℕ)
    → l.accepted ≡ []
    → IsNew pid (cs pid)
    → IsNumbered l cs pid
IsNew-IsNumbered l cs pid empty new = record {
  pid_of = new.pid_of;
  counted = omega (arith, new.none_received);
  once = λ seq. rw empty (unfold tally in omega arith);
  below = λ seq high. rw empty (unfold tally in refl);
}

-- What a client has read: the responses to its own requests in order, each of them the one that a
-- worker has sent for the request of that number, and perhaps a front part of the next.
pub record ReadsInOrder (pid : ℕ) (l : Ledger) (s : Service) : Type 0 where
  pub answer : ℕ → Bytes
  pub log : Log answer 0 (s.output pid) (s.clients pid)
  pub left :
      (k : ℕ) → k < (s.clients pid).responses_sent → response_to pid k l.finished ≡ some (answer k)
  pub torn :
      (s.clients pid).disconnected ≡ true
      → (s.output pid ≡ answers answer 0 (s.clients pid).responses_sent)
        ⊎ (response_to pid (s.clients pid).responses_sent l.finished
            ≡ some (answer (s.clients pid).responses_sent))

module _ {auth : Option AuthDb} {handles : HandleStore} {clients : ℕ → ClientState}
    (new : (pid : ℕ) → IsNew pid (clients pid)) where
  Reach-AllOrdered :
      {l : Ledger} {s : Service}
      → Reach auth handles clients l s
      → length l.accepted + max_pending_responses + 1 < u64_mod
      → AllNumbered l s × AllOrdered l s
  Reach-AllOrdered begin room = (
    (λ pid. IsNew-IsNumbered _ clients pid refl (new pid)),
    (λ pid. IsNew-IsOrdered pid (clients pid) (new pid)),
  )
  Reach-AllOrdered (later {l} {l'} {s} {s'} r step) room =
      let before = length-accepted step in
      let (n, o) = Reach-AllOrdered r (omega (arith, before)) in
      let sound = Reach-IsSound r (omega (arith, before)) in
      (
        Step-AllNumbered step (omega (arith, before)) n,
        Step-AllOrdered step (omega (arith, before)) sound.conserved n o,
      )

  -- In every interleaving of the main thread with any number of workers, whatever the requests do,
  -- wherever they wait and however write splits, delays or refuses the text, what each client reads
  -- is the responses to its own requests 0, 1, 2, … in this order, each one once and whole, and where
  -- a write has failed a front part of the next, after which nothing follows. Each of these is the
  -- response that the worker with that very request has sent. The clients are new at the start, and
  -- fewer than 2^64 - 1025 requests have been accepted.
  pub responses_in_order :
      {l : Ledger} {s : Service}
      → Reach auth handles clients l s
      → length l.accepted + max_pending_responses + 1 < u64_mod
      → (pid : ℕ) → ReadsInOrder pid l s
  responses_in_order r room pid =
      let o = (Reach-AllOrdered r room).1 pid in
      record { answer = o.answer; log = o.log; left = o.left; torn = o.torn }
