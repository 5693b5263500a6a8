-- ===== src/Handles.antt =====
-- handles.c: the store of canvases, sprites and placements that the requests of all clients share.
-- A pointer to an object of the animate library is a number, 0 for NULL. A function that changes a
-- record or the store returns it anew, beside the calls that it made of the animate library and of
-- pthread_cond_broadcast. A pointer to a record is the record itself, put back by its id.
pub mod Users
pub mod Store
pub mod Barrier
pub mod UserLaws
pub mod Records
pub mod RecordValidity
pub mod Validity
pub mod Conserve
pub mod Ownership
pub mod History
pub mod Access
pub mod BarrierLaws
pub mod Run
pub mod Tests
use comp_p.Common.{
  ℕ, ◌+◌, ◌%◌, ◌^◌, Bool, true, false, not, ◌&&◌, List, [], ◌∷◌, ◌++◌, ◌==◌, if◌then◌else◌, Bytes,
}

pub record SharedUser : Type 0 where
  pub username : Bytes
  pub connected : Bool
  pub barrier_waiting : Bool

pub record CanvasRecord : Type 0 where
  pub id : ℕ
  pub canvas : ℕ
  pub width : ℕ
  pub height : ℕ
  pub deleted : Bool
  pub users : List SharedUser

pub record SpriteRecord : Type 0 where
  pub id : ℕ
  pub sprite : ℕ
  pub owner : Bytes
  pub deleted : Bool

pub record PlacementRecord : Type 0 where
  pub id : ℕ
  pub placement : ℕ
  pub canvas_id : ℕ
  pub sprite_id : ℕ
  pub owner : Bytes
  pub deleted : Bool

-- Each list starts with the record added last.
pub record HandleStore : Type 0 where
  pub next_id : ℕ
  pub canvases : List CanvasRecord
  pub sprites : List SpriteRecord
  pub placements : List PlacementRecord

-- A call that leaves the component: an object handed to the animate library for destruction, or a
-- broadcast on the condition variable of the canvas record with that id.
pub data Effect : Type 0 where
  canvas_destroyed : ℕ → Effect
  sprite_destroyed : ℕ → Effect
  placement_destroyed : ℕ → Effect
  broadcast : ℕ → Effect

abbrev pub invalid_handle : ℕ
invalid_handle = 0

abbrev pub null : ℕ
null = 0

abbrev pub max_username_len : ℕ
max_username_len = 32

abbrev pub u64_mod : ℕ
u64_mod = 2 ^ 64
