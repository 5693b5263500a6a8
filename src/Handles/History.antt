-- ===== src/Handles/History.antt =====
-- Whole histories of calls on the store.
use comp_p.Common.{
  ℕ, ◌+◌, ◌<◌, ◌≤◌, ◌≡◌, refl, true, List, [], ◌∷◌, ◌++◌, some, Bytes, arith, length,
}
use mathlib.Core.Option.{some-injective}
use comp_p.Handles.{HandleStore, CanvasRecord, Effect, u64_mod}
use comp_p.Handles.Store.{
  handles_create, handles_destroy, handles_add_canvas, handles_add_sprite, handles_add_placement,
  handles_get_canvas, handles_destroy_canvas_for_user, handles_destroy_sprite,
  handles_destroy_placement, handles_disconnect_user, destroy_placements, destroy_canvases,
  destroy_sprites,
}
use comp_p.Handles.RecordValidity.{IsValid}
use comp_p.Handles.Validity.{perform-IsValid}
use comp_p.Handles.Conserve.{count, count-append}
use comp_p.Handles.Ownership.{handed, perform-owned}
use comp_p.Handles.Run.{
  Call, add_canvas, add_sprite, add_placement, get_canvas, share, barrier, destroy_canvas,
  destroy_sprite, destroy_placement, disconnect, on_canvas, share_change, barrier_change, perform,
  run,
}

next_id-on_canvas :
    (change : CanvasRecord → CanvasRecord × List Effect) (s : HandleStore) (id : ℕ) (name : Bytes)
    → (on_canvas change s (handles_get_canvas s id name)).0.next_id ≡ s.next_id
unfolding on_canvas handles_get_canvas
next_id-on_canvas change s id name = ground arith

next_id-perform :
    (s : HandleStore) (call : Call)
    → s.next_id + 1 < u64_mod
    → (perform s call).0.next_id ≤ s.next_id + 1
unfolding perform
next_id-perform s (add_canvas rec_ok user_ok p w h name) room =
    unfold handles_add_canvas in ground arith
next_id-perform s (add_sprite ok p name) room = unfold handles_add_sprite in ground arith
next_id-perform s (add_placement ok p c r name) room = unfold handles_add_placement in ground arith
next_id-perform s (get_canvas id name) room =
    omega (arith, next_id-on_canvas (λ c. (c, [])) s id name)
next_id-perform s (share ok id name other) room =
    omega (arith, next_id-on_canvas (share_change ok other) s id name)
next_id-perform s (barrier id name) room =
    omega (arith, next_id-on_canvas (barrier_change name) s id name)
next_id-perform s (destroy_canvas id name) room =
    unfold handles_destroy_canvas_for_user handles_get_canvas in ground arith
next_id-perform s (destroy_sprite failed id name) room =
    unfold handles_destroy_sprite in ground arith
next_id-perform s (destroy_placement id name) room =
    unfold handles_destroy_placement in ground arith
next_id-perform s (disconnect []) room = unfold handles_disconnect_user in omega arith
next_id-perform s (disconnect (b ∷ name)) room = unfold handles_disconnect_user in omega arith

-- All objects that a history hands to the store.
unfoldable pub all_handed : HandleStore → List Call → List Effect
unfolding handed
all_handed s [] = []
all_handed s (c ∷ cs) = handed s c ++ all_handed (perform s c).0 cs

kept-IsValid :
    (s : HandleStore) (cs : List Call)
    → s.next_id + length cs < u64_mod
    → IsValid s
    → IsValid (run s cs).0
unfolding run
kept-IsValid s [] room v = v
kept-IsValid s (c ∷ cs) room v =
    kept-IsValid (perform s c).0 cs (omega (arith, next_id-perform s c))
      (perform-IsValid s c (omega arith) v)

run-owned :
    (e : Effect) (s : HandleStore) (cs : List Call)
    → s.next_id + length cs < u64_mod
    → IsValid s
    → let (s', effects) = run s cs in
      count e effects + count e (handles_destroy s')
      ≡ count e (all_handed s cs) + count e (handles_destroy s)
unfolding run all_handed
run-owned e s [] room v = refl
run-owned e s (c ∷ cs) room v = omega (
  arith,
  run-owned e (perform s c).0 cs (omega (arith, next_id-perform s c))
      (perform-IsValid s c (omega arith) v),
  perform-owned e s c v,
  count-append e (perform s c).1 (run (perform s c).0 cs).1,
  count-append e (handed s c) (all_handed (perform s c).0 cs),
)

-- A history of calls on a valid store that uses up no more ids than 64 bits hold leaves the store
-- valid: in each of the three lists the ids are distinct, below next_id and in the order of their
-- making, the pointer of a record is null exactly if the record is marked as deleted, and a deleted
-- canvas has no connected user. And no object is lost or destroyed twice: each is as often destroyed by the calls or still there for a
-- final handles_destroy as it was there before or is handed in by the calls.
pub run-IsValid :
    (s : HandleStore) (cs : List Call)
    → s.next_id + length cs < u64_mod
    → IsValid s
    → let (s', effects) = run s cs in
      IsValid s'
      × ((e : Effect)
          → count e effects + count e (handles_destroy s')
            ≡ count e (all_handed s cs) + count e (handles_destroy s))
run-IsValid s cs room v = (kept-IsValid s cs room v, λ e. run-owned e s cs room v)

abbrev fresh_store : HandleStore
fresh_store = record { next_id = 1; canvases = []; sprites = []; placements = [] }

fresh_store-IsValid : IsValid fresh_store
fresh_store-IsValid = record {
  positive = omega arith;
  canvases = tt;
  sprites = tt;
  placements = tt;
}

objects_conserved_fresh :
    (e : Effect) (cs : List Call)
    → length cs + 1 < u64_mod
    → let (s', effects) = run fresh_store cs in
      count e (effects ++ handles_destroy s') ≡ count e (all_handed fresh_store cs)
unfolding handles_destroy destroy_placements destroy_canvases destroy_sprites count
objects_conserved_fresh e cs room = omega (
  arith,
  run-owned e fresh_store cs (omega arith) fresh_store-IsValid,
  count-append e (run fresh_store cs).1 (handles_destroy (run fresh_store cs).0),
)

-- From the store of handles_create on, whatever the calls (fewer than 2^64 - 1), the objects that the
-- calls and a final handles_destroy hand back to the animate library are, each as often, those that
-- the store was given a handle for: none is leaked and none is destroyed twice.
pub objects_conserved :
    (e : Effect) (s : HandleStore) (cs : List Call)
    → handles_create true true ≡ some s
    → length cs + 1 < u64_mod
    → let (s', effects) = run s cs in
      count e (effects ++ handles_destroy s') ≡ count e (all_handed s cs)
unfolding handles_create
objects_conserved e s cs created room =
    let whole = objects_conserved_fresh e cs room in
    let same : fresh_store ≡ s = some-injective _ _ created in rw same at whole
