-- ===== src/Handles/Validity.antt =====
-- handles.c, the invariant of the store over one call.
use comp_p.Common.{
  ℕ, ◌+◌, ◌<◌, ◌≡◌, refl, Bool, true, List, [], ◌∷◌, some, ◌==◌, Bytes, Option-cases, Bool-cases,
  some_pair, sym, inl, inr, arith,
}
use comp_p.Handles.{CanvasRecord, HandleStore, Effect, null, invalid_handle, u64_mod}
use comp_p.Handles.Users.{has_connected_user}
use comp_p.Handles.Records.{IsCanvas, Canvases, Opened, get_canvas_in-Opened}
use comp_p.Handles.Store.{
  get_canvas_in, put_canvas, leave_canvas, disconnect_canvases, handles_add_canvas,
  handles_add_sprite, handles_add_placement, handles_get_canvas, handles_get_sprite,
  handles_get_placement, handles_destroy_canvas_for_user, handles_destroy_sprite,
  handles_destroy_placement, handles_disconnect_user,
}
use comp_p.Handles.Run.{
  Call, add_canvas, add_sprite, add_placement, get_canvas, share, barrier, destroy_canvas,
  destroy_sprite, destroy_placement, disconnect, on_canvas, share_change, barrier_change, perform,
}
use comp_p.Handles.RecordValidity.{
  IsValid, barrier_change-IsCanvas, canvas_at-IsCanvas, Canvases-mono, disconnect_canvas-IsCanvas,
  id-disconnect_canvas, leave_canvas-IsCanvas, open_canvas-IsCanvas, Placements-mono, put-Canvases,
  put-Placements, put-Sprites, share_change-IsCanvas, Sprites-mono, with_canvases,
}

-- What handles_get_canvas returns, taken apart.
pub get_canvas-Opened :
    (s s' : HandleStore) (id : ℕ) (name : Bytes) (c : CanvasRecord)
    → IsValid s
    → handles_get_canvas s id name ≡ some (c, s')
    → (cs : List CanvasRecord) × (s' ≡ record s { canvases = cs }) × Opened id name s.canvases c cs
unfolding handles_get_canvas
get_canvas-Opened s s' id name c v e = elim (Bool-cases (id == invalid_handle)) [
  | inl bad ↦ absurd (cc (rw (bad, handles_get_canvas) at e))
  | inr fine ↦ elim (Option-cases (get_canvas_in id name s.canvases)) [
    | inl miss ↦ absurd (cc (rw (fine, miss, handles_get_canvas) at e))
    | inr ((d, ds), hit) ↦
        let (same, rest) = some_pair (rw (fine, hit, handles_get_canvas) at e) in
        (
          ds,
          sym rest,
          rw same at (get_canvas_in-Opened id s.next_id name s.canvases d ds v.canvases hit),
        )
  ]
]

pub get-IsCanvas-IsValid :
    (s s' : HandleStore) (id : ℕ) (name : Bytes) (c : CanvasRecord)
    → IsValid s
    → handles_get_canvas s id name ≡ some (c, s')
    → IsCanvas c × IsValid s'
get-IsCanvas-IsValid s s' id name c v e =
    let (cs, same, o) = get_canvas-Opened s s' id name c v e in
    let i : IsCanvas c =
      open_canvas-IsCanvas id name o.old c
        (canvas_at-IsCanvas id s.next_id s.canvases o.old v.canvases o.found) o.opened in
    (
      i,
      rw (same, o.written)
          (with_canvases s (put_canvas c s.canvases) v
            (put-Canvases s.next_id c s.canvases i v.canvases)),
    )

on_canvas-IsValid :
    (change : CanvasRecord → CanvasRecord × List Effect) (s : HandleStore) (id : ℕ) (name : Bytes)
    → ((c : CanvasRecord) → IsCanvas c → IsCanvas (change c).0)
    → IsValid s
    → IsValid (on_canvas change s (handles_get_canvas s id name)).0
unfolding on_canvas
on_canvas-IsValid change s id name keep v = elim (Option-cases (handles_get_canvas s id name)) [
  | inl miss ↦ rw (miss, on_canvas) v
  | inr ((c, s'), hit) ↦
      let (i, v') = get-IsCanvas-IsValid s s' id name c v hit in
      rw (hit, on_canvas)
        (with_canvases s' (put_canvas (change c).0 s'.canvases) v'
          (put-Canvases s'.next_id (change c).0 s'.canvases (keep c i) v'.canvases))
]

disconnect-Canvases :
    (n : ℕ) (name : Bytes) (cs : List CanvasRecord)
    → Canvases n cs
    → Canvases n (disconnect_canvases name cs).0
unfolding disconnect_canvases
disconnect-Canvases n name [] v = tt
disconnect-Canvases n name (c ∷ cs) v =
    let same = id-disconnect_canvas name c in
    (
      disconnect_canvas-IsCanvas name c v.0,
      omega (arith, same),
      omega (arith, same),
      rw same (disconnect-Canvases c.id name cs v.3),
    )

pub destroy_canvas-IsValid :
    (s : HandleStore) (id : ℕ) (name : Bytes)
    → IsValid s
    → IsValid (handles_destroy_canvas_for_user s id name).1
unfolding handles_destroy_canvas_for_user
destroy_canvas-IsValid s id name v = elim (Option-cases (handles_get_canvas s id name)) [
  | inl miss ↦ rw (miss, handles_destroy_canvas_for_user) v
  | inr ((c, s'), hit) ↦
      let (i, v') = get-IsCanvas-IsValid s s' id name c v hit in
      rw (hit, handles_destroy_canvas_for_user)
        (with_canvases s' (put_canvas (leave_canvas name c).0 s'.canvases) v' (
          put-Canvases s'.next_id (leave_canvas name c).0 s'.canvases
            (leave_canvas-IsCanvas name c i) v'.canvases))
]

pub add_canvas-IsValid :
    (s : HandleStore) (rec_ok user_ok : Bool) (p w h : ℕ) (name : Bytes)
    → s.next_id + 1 < u64_mod
    → IsValid s
    → IsValid (handles_add_canvas rec_ok user_ok s p w h name).1
unfolding handles_add_canvas has_connected_user
add_canvas-IsValid s rec_ok user_ok p w h name room v = ground (
  arith,
  Sprites-mono {m = s.next_id} {n = s.next_id + 1} s.sprites,
  Placements-mono {m = s.next_id} {n = s.next_id + 1} s.placements,
)

pub add_sprite-IsValid :
    (s : HandleStore) (ok : Bool) (p : ℕ) (name : Bytes)
    → s.next_id + 1 < u64_mod
    → IsValid s
    → IsValid (handles_add_sprite ok s p name).1
unfolding handles_add_sprite
add_sprite-IsValid s ok p name room v = ground (
  arith,
  Canvases-mono {m = s.next_id} {n = s.next_id + 1} s.canvases,
  Placements-mono {m = s.next_id} {n = s.next_id + 1} s.placements,
)

pub add_placement-IsValid :
    (s : HandleStore) (ok : Bool) (p c r : ℕ) (name : Bytes)
    → s.next_id + 1 < u64_mod
    → IsValid s
    → IsValid (handles_add_placement ok s p c r name).1
unfolding handles_add_placement
add_placement-IsValid s ok p c r name room v = ground (
  arith,
  Canvases-mono {m = s.next_id} {n = s.next_id + 1} s.canvases,
  Sprites-mono {m = s.next_id} {n = s.next_id + 1} s.sprites,
)

pub destroy_sprite-IsValid :
    (failed : ℕ → Bool) (s : HandleStore) (id : ℕ) (name : Bytes)
    → IsValid s
    → IsValid (handles_destroy_sprite failed s id name).1
unfolding handles_destroy_sprite
destroy_sprite-IsValid failed s id name v = elim (Option-cases (handles_get_sprite s id name)) [
  | inl miss ↦ rw (miss, handles_destroy_sprite) v
  | inr (r, hit) ↦ ground (
    arith,
    hit,
    put-Sprites s.next_id (record r { sprite = null; deleted = true }) s.sprites refl v.sprites,
  )
]

pub destroy_placement-IsValid :
    (s : HandleStore) (id : ℕ) (name : Bytes)
    → IsValid s
    → IsValid (handles_destroy_placement s id name).1
unfolding handles_destroy_placement
destroy_placement-IsValid s id name v = elim (Option-cases (handles_get_placement s id name)) [
  | inl miss ↦ rw (miss, handles_destroy_placement) v
  | inr (r, hit) ↦
      let d =
        put-Placements s.next_id (record r { placement = null; deleted = true }) s.placements refl
          v.placements in
      ground (arith, hit, d)
]

-- Every call on a valid store leaves it valid, as long as the 64-bit counter of ids does not wrap.
pub perform-IsValid :
    (s : HandleStore) (call : Call)
    → s.next_id + 1 < u64_mod
    → IsValid s
    → IsValid (perform s call).0
unfolding perform
perform-IsValid s (add_canvas rec_ok user_ok p w h name) room v =
    add_canvas-IsValid s rec_ok user_ok p w h name room v
perform-IsValid s (add_sprite ok p name) room v = add_sprite-IsValid s ok p name room v
perform-IsValid s (add_placement ok p c r name) room v =
    add_placement-IsValid s ok p c r name room v
perform-IsValid s (get_canvas id name) room v =
    on_canvas-IsValid (λ c. (c, [])) s id name (λ c i. i) v
perform-IsValid s (share ok id name other) room v =
    on_canvas-IsValid (share_change ok other) s id name (share_change-IsCanvas ok other) v
perform-IsValid s (barrier id name) room v =
    on_canvas-IsValid (barrier_change name) s id name (barrier_change-IsCanvas name) v
perform-IsValid s (destroy_canvas id name) room v = destroy_canvas-IsValid s id name v
perform-IsValid s (destroy_sprite failed id name) room v = destroy_sprite-IsValid failed s id name v
perform-IsValid s (destroy_placement id name) room v = destroy_placement-IsValid s id name v
perform-IsValid s (disconnect []) room v = unfold handles_disconnect_user in v
perform-IsValid s (disconnect (b ∷ name)) room v =
    unfold handles_disconnect_user in
    with_canvases s (disconnect_canvases (b ∷ name) s.canvases).0 v
      (disconnect-Canvases s.next_id (b ∷ name) s.canvases v.canvases)
