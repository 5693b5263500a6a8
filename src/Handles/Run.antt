-- ===== src/Handles/Run.antt =====
-- The calls that the request handlers make of the store, and sequences of them.
use comp_p.Common.{ℕ, Bool, List, [], ◌∷◌, ◌++◌, Option, none, some, Bytes}
use comp_p.Handles.{HandleStore, Effect, CanvasRecord}
use comp_p.Handles.Store.{
  handles_add_canvas, handles_add_sprite, handles_add_placement, handles_get_canvas, put_canvas,
  handles_destroy_canvas_for_user, handles_destroy_sprite, handles_destroy_placement,
  handles_disconnect_user,
}
use comp_p.Handles.Barrier.{canvas_record_barrier, canvas_record_share}

-- The numbers are the pointers and sizes of the objects, then the handles, then who calls.
pub data Call : Type 0 where
  add_canvas : Bool → Bool → ℕ → ℕ → ℕ → Bytes → Call
  add_sprite : Bool → ℕ → Bytes → Call
  add_placement : Bool → ℕ → ℕ → ℕ → Bytes → Call
  get_canvas : ℕ → Bytes → Call
  share : Bool → ℕ → Bytes → Bytes → Call
  barrier : ℕ → Bytes → Call
  destroy_canvas : ℕ → Bytes → Call
  destroy_sprite : (ℕ → Bool) → ℕ → Bytes → Call
  destroy_placement : ℕ → Bytes → Call
  disconnect : Bytes → Call

-- A call of canvas_record_share or canvas_record_barrier on the canvas that handles_get_canvas found.
unfoldable pub on_canvas :
    (CanvasRecord → CanvasRecord × List Effect)
    → HandleStore
    → Option (CanvasRecord × HandleStore)
    → HandleStore × List Effect
on_canvas change s none = (s, [])
on_canvas change s (some (c, s')) =
    let (r, effects) = change c in (record s' { canvases = put_canvas r s'.canvases }, effects)

abbrev pub share_change : Bool → Bytes → CanvasRecord → CanvasRecord × List Effect
share_change ok name c = ((canvas_record_share ok c name).1, [])

abbrev pub barrier_change : Bytes → CanvasRecord → CanvasRecord × List Effect
barrier_change name c = let (progress, r, effects) = canvas_record_barrier c name in (r, effects)

unfoldable pub perform : HandleStore → Call → HandleStore × List Effect
unfolding on_canvas
perform s (add_canvas rec_ok user_ok p w h name) =
    ((handles_add_canvas rec_ok user_ok s p w h name).1, [])
perform s (add_sprite ok p name) = ((handles_add_sprite ok s p name).1, [])
perform s (add_placement ok p c r name) = ((handles_add_placement ok s p c r name).1, [])
perform s (get_canvas id name) = on_canvas (λ c. (c, [])) s (handles_get_canvas s id name)
perform s (share ok id name other) =
    on_canvas (share_change ok other) s (handles_get_canvas s id name)
perform s (barrier id name) = on_canvas (barrier_change name) s (handles_get_canvas s id name)
perform s (destroy_canvas id name) =
    let (rc, s', effects) = handles_destroy_canvas_for_user s id name in (s', effects)
perform s (destroy_sprite failed id name) =
    let (rc, s', effects) = handles_destroy_sprite failed s id name in (s', effects)
perform s (destroy_placement id name) =
    let (rc, s', effects) = handles_destroy_placement s id name in (s', effects)
perform s (disconnect name) = handles_disconnect_user s name

unfoldable pub run : HandleStore → List Call → HandleStore × List Effect
unfolding perform
run s [] = (s, [])
run s (c ∷ cs) =
    let (s', effects) = perform s c in let (s'', more) = run s' cs in (s'', effects ++ more)
