-- ===== src/Rpc.antt =====
-- rpc.c: the requests of a client. The state is the handle store and the client that asks. What a
-- request makes of the animate library, of the clock and of files is a record of the outcomes of those
-- calls; the calls themselves are logged in order. Each response is also printed on stdout.
pub mod Text
pub mod Create
pub mod Place
pub mod Share
pub mod Generate
pub mod Request
pub mod Tokens
pub mod Lines
pub mod Login
pub mod Kept
pub mod Waits
pub mod Replies
pub mod Guard
pub mod Ffmpeg
pub mod Aside
pub mod Untouched
pub mod Tests
use comp_p.Common.{ℕ, Bool, List, [], ◌∷◌, ◌++◌, Option, Bytes}
use comp_p.CString.Number.{ℤ}
use comp_p.Auth.{AuthDb}
use comp_p.Rpc.Ffmpeg.{Wait}
use comp_p.Handles.{HandleStore, Effect}
use comp_p.ServerCommon.{ClientState}

-- The pointers that the animate library returns (0 is NULL), which allocations succeed, the time, and
-- for the generation of a movie how the files and the child process behave and what other threads do to the store before
-- frame n takes the lock.
pub record Environment : Type 0 where
  pub animate_create_canvas : ℕ → ℕ → ℕ → ℕ
  pub animate_create_sprite : Bytes → ℕ
  pub animate_create_rectangle : ℕ → ℕ → ℕ → Bool → ℕ
  pub animate_create_circle : ℕ → ℕ → Bool → ℕ
  pub animate_place_sprite : ℕ → ℕ → ℤ → ℤ → ℕ
  pub animate_destroy_sprite : ℕ → Bool
  pub line_ok : Bool
  pub record_ok : Bool
  pub user_ok : Bool
  pub time : ℕ
  pub buffers_ok : Bool
  pub dat_opens : Bool
  pub frame_writes : ℕ → Bool
  pub dat_closes : Bool
  pub log_opens : Bool
  pub fork_ok : Bool
  pub waits : List Wait
  pub others : ℕ → HandleStore → HandleStore

pub data Move : Type 0 where
  up down top bottom : Move

-- A call of the animate library, or a start of ffmpeg with its arguments.
pub data Action : Type 0 where
  handed : Effect → Action
  placed : ℕ → ℕ → ℤ → ℤ → Action
  moved : Move → ℕ → Action
  params_set : ℕ → ℤ → ℤ → ℤ → ℤ → Action
  frame_generated : ℕ → ℕ → ℕ → Action
  ffmpeg_started : List Bytes → Action

pub record World : Type 0 where
  pub auth : Option AuthDb
  pub handles : HandleStore
  pub client : ClientState
  pub log : List Action

-- What a request does after its wait on the barrier of a canvas.
pub data Next : Type 0 where
  to_place : ℕ → ℤ → ℤ → Next
  to_move : Move → ℕ → Next
  to_set : ℕ → ℤ → ℤ → ℤ → ℤ → Next
  to_pass : Next
  to_generate : Bytes → ℕ → ℕ → ℕ → Next

-- A request has its response, or it waits on the barrier of the canvas record with that id, as the
-- user of that name.
pub data Outcome : Type 0 where
  answered : Bytes → World → Outcome
  paused : ℕ → Bytes → Next → World → Outcome

abbrev pub with_log : List Action → World → World
with_log actions w = record w { log = w.log ++ actions }

abbrev pub with_handles : HandleStore → World → World
with_handles s w = record w { handles = s }

abbrev pub with_client : ClientState → World → World
with_client c w = record w { client = c }
