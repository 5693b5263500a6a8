-- ===== src/Threadpool.antt =====
-- threadpool.c, the queues: one per client, in a doubly linked list that workers serve in turn. The
-- list is a list of queues, and a pointer to a client or to its queue is the client's pid.
pub mod Queues
pub mod Rotation
pub mod Fair
pub mod Valid
pub mod Preserve
pub mod Arrive
pub mod Remove
pub mod Turns
pub mod Requests
pub mod Life
pub mod History
pub mod Response
pub mod Tests
use comp_p.Common.{
  ℕ, ◌+◌, Bool, true, false, not, ◌&&◌, ◌||◌, List, [], ◌∷◌, ◌++◌, Option, none, some, ◌==◌,
  if◌then◌else◌, Bytes,
}
use comp_p.ServerCommon.{ClientState, Request, inc64, dec64}

pub record ClientQueue : Type 0 where
  pub client : ℕ
  pub requests : List Request
  pub queued_count : ℕ
  pub active : Bool

pub record Threadpool : Type 0 where
  pub shutting_down : Bool
  pub pending_requests : ℕ
  pub clients : List ClientQueue
  pub next_client : Option ℕ

-- Why a call returns -1, by errno: ENOMEM, EEXIST, ESHUTDOWN and ENOTCONN.
pub data Status : Type 0 where
  ok no_memory exists shut_down not_connected : Status
