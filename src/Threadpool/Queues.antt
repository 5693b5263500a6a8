-- ===== src/Threadpool/Queues.antt =====
-- The operations on the queues.
use comp_p.Common.{
  ℕ, Bool, true, false, not, ◌&&◌, ◌||◌, List, [], ◌∷◌, ◌++◌, Option, none, some, ◌==◌,
  if◌then◌else◌, Bytes,
}
use comp_p.ServerCommon.{ClientState, Request, inc64, dec64}
use comp_p.Threadpool.{
  ClientQueue, Threadpool, Status, ok, no_memory, exists, shut_down, not_connected,
}

unfoldable pub find_client_queue : ℕ → List ClientQueue → Option ClientQueue
find_client_queue c [] = none
find_client_queue c (q ∷ qs) = if q.client == c then some q else find_client_queue c qs

-- The list from the queue of a client on, and the list before that queue.
unfoldable pub from : ℕ → List ClientQueue → List ClientQueue
from c [] = []
from c (q ∷ qs) = if q.client == c then q ∷ qs else from c qs

unfoldable pub before : ℕ → List ClientQueue → List ClientQueue
before c [] = []
before c (q ∷ qs) = if q.client == c then [] else q ∷ before c qs

unfoldable pub head_client : List ClientQueue → Option ℕ
head_client [] = none
head_client (q ∷ qs) = some q.client

abbrev pub tail : List ClientQueue → List ClientQueue
tail [] = []
tail (q ∷ qs) = qs

abbrev pub or_else : Option ℕ → Option ℕ → Option ℕ
or_else none b = b
or_else (some a) b = some a

-- `queue->next != NULL ? queue->next : pool->clients_head`.
unfoldable pub next_after : ℕ → List ClientQueue → List ClientQueue → Option ℕ
next_after c qs all = or_else (head_client (tail (from c qs))) (head_client all)

-- The pointer next_client when the queue of client c goes.
unfoldable pub step_past : Option ℕ → ℕ → Option ℕ → Option ℕ
step_past none c next = none
step_past (some n) c next = if n == c then next else some n

unfoldable pub unlink_client_queue : ℕ → Threadpool → Threadpool
unlink_client_queue c p =
    let clients : List ClientQueue = before c p.clients ++ tail (from c p.clients) in
    record p {
      clients = clients;
      next_client = step_past p.next_client c (next_after c p.clients clients);
    }

-- A write through the pointer to a queue.
unfoldable pub put_queue : ClientQueue → List ClientQueue → List ClientQueue
put_queue r [] = []
put_queue r (q ∷ qs) = if q.client == r.client then r ∷ qs else q ∷ put_queue r qs

unfoldable pub pop_request : ClientQueue → Option (Request × ClientQueue)
pop_request q = elim q.requests [
  | [] ↦ none
  | r ∷ rest ↦
      if q.active
      then some (r, record q { requests = rest; queued_count = dec64 q.queued_count })
      else none
]

-- The loop of dequeue_fair_request over the queues in the order in which it visits them.
unfoldable pub visit : List ClientQueue → Option (Request × ClientQueue)
visit [] = none
visit (q ∷ qs) = elim (pop_request q) [ some found ↦ some found | none ↦ visit qs ]

-- That order: from `start` to the end of the list, then from the head up to `start`.
unfoldable pub cycle : ℕ → List ClientQueue → List ClientQueue
cycle start qs = from start qs ++ before start qs

unfoldable pub ring : Option ℕ → List ClientQueue → List ClientQueue
ring none qs = []
ring (some start) qs = cycle start qs

-- The queues in the order in which the next dequeue visits them.
unfoldable pub rotation : Threadpool → List ClientQueue
rotation p = ring (or_else p.next_client (head_client p.clients)) p.clients

unfoldable pub is_nil {ℓ} : {A : Type ℓ} → List A → Bool
is_nil [] = true
is_nil (x ∷ xs) = false

unfoldable pub take_request : Threadpool → Request × ClientQueue → Threadpool
take_request p (r, q) =
    let clients : List ClientQueue = put_queue q p.clients in
    record p {
      pending_requests = dec64 p.pending_requests;
      clients = clients;
      next_client = next_after q.client p.clients clients;
    }

unfoldable pub dequeue_fair_request : Threadpool → Option Request × Threadpool
dequeue_fair_request p =
    if p.pending_requests == 0 || is_nil p.clients then (none, p) else elim (visit (rotation p)) [
      | none ↦ (none, p)
      | some (r, q) ↦ (some r, take_request p (r, q))
    ]

unfoldable pub new_queue : ℕ → ClientQueue
new_queue c = record { client = c; requests = []; queued_count = 0; active = true }

-- The new queue goes to the end of the list.
unfoldable pub append_queue : Threadpool → ClientQueue → Threadpool
append_queue p q = record p {
  clients = p.clients ++ (q ∷ []);
  next_client = or_else p.next_client (some q.client);
}

-- The argument says whether calloc succeeds.
unfoldable pub threadpool_register_client : Bool → Threadpool → ℕ → Status × Threadpool
threadpool_register_client calloc_ok p c =
    if not calloc_ok then (no_memory, p) else elim (find_client_queue c p.clients) [
      | some q ↦ (exists, p)
      | none ↦ (ok, append_queue p (new_queue c))
    ]

-- The loop that frees the requests of a removed queue.
unfoldable pub drop_requests : List Request → ℕ → ℕ
drop_requests [] pending = pending
drop_requests (r ∷ rs) pending = drop_requests rs (dec64 pending)

unfoldable pub threadpool_remove_client : Threadpool → ℕ → Threadpool
threadpool_remove_client p c = elim (find_client_queue c p.clients) [
  | none ↦ p
  | some q ↦ record (unlink_client_queue c p) {
    pending_requests = drop_requests q.requests p.pending_requests;
  }
]

unfoldable pub request_of : ClientState → Bytes → Request
request_of client line = record {
  client = client.client_pid;
  request_seq_num = client.requests_received;
  rpc_line = line;
}

-- The request goes to the end of the queue q of the pool.
unfoldable pub enqueue : Threadpool → ClientQueue → Request → Threadpool
enqueue p q request =
    let q' : ClientQueue = record q {
      requests = q.requests ++ (request ∷ []);
      queued_count = inc64 q.queued_count;
    } in
    record p { clients = put_queue q' p.clients; pending_requests = inc64 p.pending_requests }

-- The arguments say whether the two callocs succeed. A request is numbered only when it is queued.
unfoldable pub threadpool_submit :
    Bool → Bool → Threadpool → ClientState → Bytes → Status × Threadpool × ClientState
threadpool_submit request_ok node_ok p client line =
    if not request_ok || not node_ok
    then (no_memory, p, client)
    else if p.shutting_down
    then (shut_down, p, client)
    else elim (find_client_queue client.client_pid p.clients) [
      | none ↦ (not_connected, p, client)
      | some q ↦ if not q.active || client.disconnected then (not_connected, p, client) else (
        ok,
        enqueue p q (request_of client line),
        record client { requests_received = inc64 client.requests_received },
      )
    ]

-- What a worker does with the mutex held: it waits for work, ends, or takes a request.
pub data Turn : Type 0 where
  sleep : Turn
  exit : Turn
  work : Option Request → Threadpool → Turn

unfoldable pub worker_turn : Threadpool → Turn
worker_turn p =
    let (request, p') = dequeue_fair_request p in
    if not p.shutting_down && p.pending_requests == 0
    then sleep
    else if p.shutting_down && p.pending_requests == 0
    then exit
    else work request p'

unfoldable pub threadpool_create : Threadpool
threadpool_create = record {
  shutting_down = false;
  pending_requests = 0;
  clients = [];
  next_client = none;
}

-- What threadpool_destroy does before it waits for the workers.
unfoldable pub threadpool_shutdown : Threadpool → Threadpool
threadpool_shutdown p = record p { shutting_down = true }
