-- ===== src/Service.antt =====
-- threadpool.c, worker_main, with the handler of rpc.c that server_main.c gives it: the workers of the
-- server at work on the requests of all clients. A step is one critical section, one call of the
-- handler up to its wait on a barrier, or one turn of such a wait.
pub mod Ledger
pub mod Conserve
pub mod Aside
pub mod Unique
pub mod Order
pub mod Pending
pub mod Replied
pub mod Kept
pub mod Ordered
pub mod Reached
pub mod Main
pub mod Sweep
pub mod Rounds
pub mod System
pub mod Tests
use comp_p.Common.{
  ℕ, Bool, true, false, ◌==◌, ◌≡◌, List, [], ◌∷◌, ◌++◌, Option, none, some, if◌then◌else◌, Bytes,
}
use comp_p.Auth.{AuthDb}
use comp_p.Handles.{HandleStore}
use comp_p.ServerCommon.{ClientState, Request}
use comp_p.Threadpool.{Threadpool}
use comp_p.Threadpool.Response.{Write, send_ordered_response}
use comp_p.Rpc.{Environment, World, Action, Next, Outcome, answered, paused}
use comp_p.Rpc.Request.{rpc_handle_request, resume}

-- What a worker has in hand: a request from the queues, a request that waits on the barrier of a
-- canvas, or a request with its response.
pub data Job : Type 0 where
  fresh : Request → Job
  waiting : Request → ℕ → Bytes → Next → Job
  replying : Request → Bytes → Job

-- The state of the clients is a function of the pid, and so is what has gone to each one's FIFO.
pub record Service : Type 0 where
  pub pool : Threadpool
  pub auth : Option AuthDb
  pub handles : HandleStore
  pub log : List Action
  pub clients : ℕ → ClientState
  pub jobs : List Job
  pub output : ℕ → Bytes

unfoldable pub put {ℓ} : {A : Type ℓ} → ℕ → A → (ℕ → A) → ℕ → A
put k v f j = if j == k then v else f j

-- What a request of that client works on.
abbrev pub world_of : Service → ℕ → World
world_of s pid = record { auth = s.auth; handles = s.handles; client = s.clients pid; log = s.log }

abbrev pub with_world : ℕ → World → Service → Service
with_world pid w s = record s {
  auth = w.auth;
  handles = w.handles;
  log = w.log;
  clients = put pid w.client s.clients;
}

-- The job after the handler has come to its end or to a wait.
unfoldable pub job_after : Request → Outcome → Job
job_after r (answered response w) = replying r response
job_after r (paused id name next w) = waiting r id name next

unfoldable pub world_after : Outcome → World
world_after (answered response w) = w
world_after (paused id name next w) = w

-- The flags say whether the handler and the strdup after it find memory.
unfoldable pub worker_response : Bool → Bool → Bytes → Option Bytes
worker_response true copy_ok response = some response
worker_response false true response = some (b'-' ∷ b'1' ∷ 10 ∷ [])
worker_response false false response = none

-- The response goes out, if there is one.
unfoldable pub deliver : List Write → Request → Option Bytes → Service → Service
deliver calls r none s = s
deliver calls r (some response) s =
    let (out, rest, client) = send_ordered_response calls r response (s.clients r.client) in
    record s {
      clients = put r.client client s.clients;
      output = put r.client (s.output r.client ++ out) s.output;
    }

-- The request that the job is about.
abbrev pub request_in : Job → Request
request_in (fresh r) = r
request_in (waiting r id name next) = r
request_in (replying r response) = r
