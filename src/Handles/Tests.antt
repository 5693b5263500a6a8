-- ===== src/Handles/Tests.antt =====
-- Runs of the handle store, and the theorems at concrete inputs.
use comp_p.Common.{
  ◌+◌, ◌≡◌, ◌⊎◌, ap, sym, refl, true, false, List, [], ◌∷◌, ◌++◌, some, Bytes, codes, str_eq, All,
  arith,
}
use mathlib.Core.Bool.{false≢true}
use comp_p.CString.{strncpy}
use comp_p.CString.Number.{pos}
use comp_p.Handles.{
  Effect, SharedUser, CanvasRecord, SpriteRecord, HandleStore, canvas_destroyed, broadcast,
}
use comp_p.Handles.Users.{update_shared_user, find_shared_user, copy_username, barrier_complete}
use comp_p.Handles.UserLaws.{HasArrived}
use comp_p.Handles.Store.{
  handles_create, handles_destroy, handles_add_canvas, handles_get_canvas, disconnect_canvas,
  leave_canvas,
}
use comp_p.Handles.Barrier.{returned, waiting, canvas_record_barrier, wait_turn, release_all}
use comp_p.Handles.Run.{Call, add_canvas, add_sprite, share, destroy_canvas, destroy_sprite, run}
use comp_p.Handles.RecordValidity.{IsValid}
use comp_p.Handles.Conserve.{count}
use comp_p.Handles.History.{all_handed, run-IsValid, objects_conserved}
use comp_p.Handles.Access.{get-add_canvas}
use comp_p.Handles.BarrierLaws.{arrived, barrier_lem, leave_keeps_waiting}

abbrev ann : Bytes
ann = codes "ann"

abbrev bob : Bytes
bob = codes "bob"

abbrev empty_store : HandleStore
empty_store = record { next_id = 1; canvases = []; sprites = []; placements = [] }

abbrev ann_user : SharedUser
ann_user = record { username = ann; connected = true; barrier_waiting = false }

abbrev bob_waiting : SharedUser
bob_waiting = record { username = bob; connected = true; barrier_waiting = true }

abbrev shared_canvas : CanvasRecord
shared_canvas = record {
  id = 1;
  canvas = 70;
  width = 4;
  height = 3;
  deleted = false;
  users = bob_waiting ∷ ann_user ∷ [];
}

abbrev ann_sprite : SpriteRecord
ann_sprite = record { id = 2; sprite = 80; owner = ann; deleted = false }

abbrev busy_store : HandleStore
busy_store = record {
  next_id = 3;
  canvases = shared_canvas ∷ [];
  sprites = ann_sprite ∷ [];
  placements = [];
}

abbrev history : List Call
history =
    add_canvas true true 70 4 3 ann
    ∷ share true 1 ann bob
    ∷ add_sprite true 80 ann
    ∷ destroy_sprite (λ p. false) 2 ann
    ∷ destroy_canvas 1 ann
    ∷ []

-- Both users have arrived: bob is released with ann.
both_pass : (canvas_record_barrier shared_canvas ann).0 ≡ returned (pos 0)
unfolding canvas_record_barrier find_shared_user update_shared_user str_eq barrier_complete
both_pass = refl

run-IsValid_example :
    let (s', effects) = run empty_store history in
    IsValid s'
    × ((e : Effect)
        → count e effects + count e (handles_destroy s')
          ≡ count e (all_handed empty_store history) + count e (handles_destroy empty_store))
run-IsValid_example =
    run-IsValid empty_store history (omega arith)
      (record { positive = omega arith; canvases = tt; sprites = tt; placements = tt })

objects_conserved_example :
    count
      (canvas_destroyed 70)
      ((run empty_store history).1 ++ handles_destroy (run empty_store history).0)
    ≡ count (canvas_destroyed 70) (all_handed empty_store history)
objects_conserved_example =
    objects_conserved (canvas_destroyed 70) empty_store history created (omega arith)
  where
    created : handles_create true true ≡ some empty_store
    created = unfold handles_create in refl

get-add_canvas_example :
    handles_get_canvas
      (record busy_store {
        next_id = 4;
        canvases =
            record {
              id = 3;
              canvas = 71;
              width = 2;
              height = 2;
              deleted = false;
              users = ann_user ∷ [];
            }
            ∷ shared_canvas
            ∷ [];
      })
      3
      ann
    ≡ some (
      record { id = 3; canvas = 71; width = 2; height = 2; deleted = false; users = ann_user ∷ [] },
      record busy_store {
        next_id = 4;
        canvases =
            record {
              id = 3;
              canvas = 71;
              width = 2;
              height = 2;
              deleted = false;
              users = ann_user ∷ [];
            }
            ∷ shared_canvas
            ∷ [];
      },
    )
unfolding handles_add_canvas copy_username strncpy
get-add_canvas_example =
    get-add_canvas busy_store _ true true 71 2 2 3 ann refl refl (λ e. omega arith)

barrier_lem_example :
    (All HasArrived (arrived ann shared_canvas)
      × (canvas_record_barrier shared_canvas ann ≡ (
        returned (pos 0),
        record shared_canvas { users = release_all (arrived ann shared_canvas) },
        broadcast 1 ∷ [],
      ))
      × ((other : Bytes)
          → wait_turn (canvas_record_barrier shared_canvas ann).1 other ≡ returned (pos 0)))
    ⊎ ((¬ All HasArrived (arrived ann shared_canvas))
        × (canvas_record_barrier shared_canvas ann
            ≡ (waiting, record shared_canvas { users = arrived ann shared_canvas }, []))
        × (wait_turn (canvas_record_barrier shared_canvas ann).1 ann ≡ waiting))
unfolding find_shared_user str_eq
barrier_lem_example = barrier_lem shared_canvas ann ann_user refl

-- Bob is the only connected user left, and waits on.
leave_keeps_waiting_example :
    (wait_turn (disconnect_canvas ann shared_canvas).0 bob ≡ waiting)
    × (wait_turn (leave_canvas ann shared_canvas).0 bob ≡ waiting)
unfolding wait_turn find_shared_user str_eq
leave_keeps_waiting_example =
    leave_keeps_waiting shared_canvas bob ann (λ e. false≢true (sym (ap (str_eq ann) e))) refl
