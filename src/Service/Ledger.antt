-- ===== src/Service/Ledger.antt =====
-- threadpool.c and rpc.c: the steps of the workers and of the main thread, with a ledger of the
-- requests.
use comp_p.Common.{ℕ, Bool, ◌≡◌, List, [], ◌∷◌, ◌++◌, Option, none, some, true, Bytes}
use comp_p.Auth.{AuthDb}
use comp_p.Handles.{HandleStore}
use comp_p.ServerCommon.{ClientState, Request}
use comp_p.Threadpool.{Threadpool}
use comp_p.Threadpool.Queues.{
  threadpool_create, threadpool_register_client, threadpool_remove_client, threadpool_submit,
  threadpool_shutdown, find_client_queue, request_of, worker_turn, work,
}
use comp_p.Threadpool.Requests.{queue_requests, accepted_by}
use comp_p.Threadpool.Response.{Write}
use comp_p.Rpc.{Environment, Next, Outcome}
use comp_p.Rpc.Request.{rpc_handle_request, rpc_client_disconnected, resume}
use comp_p.Service.{
  Job, fresh, waiting, replying, Service, put, world_of, with_world, job_after, world_after,
  worker_response, deliver,
}

-- A request whose job has ended, and the response that was sent for it, if any.
pub record Finished : Type 0 where
  pub request : Request
  pub response : Option Bytes

-- The requests that the pool has accepted, those whose job has ended, and those that have gone with
-- the queue of a removed client.
pub record Ledger : Type 0 where
  pub accepted : List Request
  pub finished : List Finished
  pub dropped : List Request

-- close_client is leave, set_disconnected, remove and close_fds, in this order; other steps may come
-- between.
pub data Step : Ledger → Service → Ledger → Service → Type 0 where
  register :
      {l : Ledger} {s : Service} (calloc_ok : Bool) (pid : ℕ)
      → Step l s l (record s { pool = (threadpool_register_client calloc_ok s.pool pid).1 })
  submit :
      {l : Ledger} {s : Service} (request_ok node_ok : Bool) (pid : ℕ) (line : Bytes)
      → Step l s
          (record l {
            accepted =
                accepted_by
                  (threadpool_submit request_ok node_ok s.pool (s.clients pid) line).0
                  (request_of (s.clients pid) line)
                ++ l.accepted;
          })
          (record s {
            pool = (threadpool_submit request_ok node_ok s.pool (s.clients pid) line).1;
            clients =
                put pid
                  (threadpool_submit request_ok node_ok s.pool (s.clients pid) line).2
                  s.clients;
          })
  remove :
      {l : Ledger} {s : Service} (pid : ℕ)
      → Step l s
          (record l {
            dropped = queue_requests (find_client_queue pid s.pool.clients) ++ l.dropped;
          })
          (record s { pool = threadpool_remove_client s.pool pid })
  leave :
      {l : Ledger} {s : Service} (now pid : ℕ)
      → Step l s l (with_world pid (rpc_client_disconnected now (world_of s pid)) s)
  set_disconnected :
      {l : Ledger} {s : Service} (pid : ℕ)
      → Step l s l (record s {
        clients = put pid (record (s.clients pid) { disconnected = true }) s.clients;
      })
  close_fds :
      {l : Ledger} {s : Service} (pid : ℕ)
      → Step l s l (record s {
        clients =
            put pid (record (s.clients pid) { fifo_c2s_fd = none; fifo_s2c_fd = none }) s.clients;
      })
  open_client :
      {l : Ledger} {s : Service} (now pid c2s s2c : ℕ)
      → Step l s l (record s {
        clients =
            put pid
              (record (s.clients pid) {
                fifo_c2s_fd = some c2s;
                fifo_s2c_fd = some s2c;
                last_activity = now;
              })
              s.clients;
      })
  touch :
      {l : Ledger} {s : Service} (now pid : ℕ)
      → Step l s l (record s {
        clients = put pid (record (s.clients pid) { last_activity = now }) s.clients;
      })
  shutdown :
      {l : Ledger} {s : Service} → Step l s l (record s { pool = threadpool_shutdown s.pool })
  take_next :
      {l : Ledger} {s : Service} (r : Request) (pool : Threadpool)
      → worker_turn s.pool ≡ work (some r) pool
      → Step l s l (record s { pool = pool; jobs = fresh r ∷ s.jobs })
  handle :
      {l : Ledger} {s : Service} (env : Environment) (r : Request) (o : Outcome)
      (left right : List Job)
      → s.jobs ≡ left ++ fresh r ∷ right
      → rpc_handle_request env (world_of s r.client) r.rpc_line ≡ o
      → Step l s l
          (record (with_world r.client (world_after o) s) { jobs = left ++ job_after r o ∷ right })
  wake :
      {l : Ledger} {s : Service} (env : Environment) (r : Request) (id : ℕ) (name : Bytes)
      (next : Next) (o : Outcome) (left right : List Job)
      → s.jobs ≡ left ++ waiting r id name next ∷ right
      → resume env (world_of s r.client) id name next ≡ o
      → Step l s l
          (record (with_world r.client (world_after o) s) { jobs = left ++ job_after r o ∷ right })
  reply :
      {l : Ledger} {s : Service} (handler_ok copy_ok : Bool) (calls : List Write) (r : Request)
      (response : Bytes) (left right : List Job)
      → s.jobs ≡ left ++ replying r response ∷ right
      → Step l s
          (record l {
            finished =
                record { request = r; response = worker_response handler_ok copy_ok response }
                ∷ l.finished;
          })
          (record (deliver calls r (worker_response handler_ok copy_ok response) s) {
            jobs = left ++ right;
          })

abbrev pub empty_ledger : Ledger
empty_ledger = record { accepted = []; finished = []; dropped = [] }

-- The server before its first client.
abbrev pub start : Option AuthDb → HandleStore → (ℕ → ClientState) → Service
start auth handles clients = record {
  pool = threadpool_create;
  auth = auth;
  handles = handles;
  log = [];
  clients = clients;
  jobs = [];
  output = λ pid. [];
}

-- The states that the server comes to, with their ledgers.
pub data Reach (auth : Option AuthDb) (handles : HandleStore) (clients : ℕ → ClientState)
    : Ledger → Service → Type 0 where
  begin : Reach auth handles clients empty_ledger (start auth handles clients)
  later :
      {l l' : Ledger} {s s' : Service}
      → Reach auth handles clients l s
      → Step l s l' s'
      → Reach auth handles clients l' s'
