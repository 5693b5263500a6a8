-- ===== src/Handles/Ownership.antt =====
-- handles.c, the objects of the animate library over one call of the store.
use comp_p.Common.{
  ℕ, ◌+◌, ◌≡◌, refl, ◌∙◌, Bool, true, List, [], ◌∷◌, ◌++◌, some, ◌==◌, if◌then◌else◌, Bytes,
  Option-cases, inl, inr, arith,
}
use comp_p.Handles.{
  CanvasRecord, SpriteRecord, PlacementRecord, HandleStore, Effect, canvas_destroyed,
  sprite_destroyed, placement_destroyed, null, invalid_handle,
}
use comp_p.Handles.Records.{canvas_at, open_canvas-id, get_sprite-in, get_placement-in}
use comp_p.Handles.RecordValidity.{IsValid}
use comp_p.Handles.Validity.{get_canvas-Opened}
use comp_p.Handles.Conserve.{
  count, same_object-broadcast, count-append, count-broadcast, owns_canvas, owns_sprite,
  owns_placement, count-put_canvas, count-put_sprite, count-put_placement, owns-leave,
  disconnect-count,
}
use comp_p.Handles.Store.{
  open_canvas, put_canvas, put_sprite, put_placement, leave_canvas, destroy_placements,
  destroy_canvases, destroy_sprites, handles_destroy, handles_add_canvas, handles_add_sprite,
  handles_add_placement, handles_get_canvas, handles_get_sprite, handles_get_placement,
  handles_destroy_canvas_for_user, handles_destroy_sprite, handles_destroy_placement,
  handles_disconnect_user,
}
use comp_p.Handles.Barrier.{canvas_record_barrier, canvas_record_share}
use comp_p.Handles.Run.{
  Call, add_canvas, add_sprite, add_placement, get_canvas, share, barrier, destroy_canvas,
  destroy_sprite, destroy_placement, disconnect, on_canvas, share_change, barrier_change, perform,
}

-- The object that a call hands over: that of an add which returns a handle.
unfoldable pub handed : HandleStore → Call → List Effect
handed s (add_canvas rec_ok user_ok p w h name) =
    if (handles_add_canvas rec_ok user_ok s p w h name).0 == invalid_handle
    then []
    else canvas_destroyed p ∷ []
handed s (add_sprite ok p name) =
    if (handles_add_sprite ok s p name).0 == invalid_handle then [] else sprite_destroyed p ∷ []
handed s (add_placement ok p c r name) =
    if (handles_add_placement ok s p c r name).0 == invalid_handle
    then []
    else placement_destroyed p ∷ []
handed s call = []

canvas_at-put :
    (c d : CanvasRecord) (cs : List CanvasRecord)
    → canvas_at c.id cs ≡ some d
    → canvas_at c.id (put_canvas c cs) ≡ some c
unfolding canvas_at put_canvas
canvas_at-put c d [] h = absurd (cc)
canvas_at-put c d (x ∷ cs) h = ground (arith, canvas_at-put c d cs)

id-leave_canvas : (name : Bytes) (c : CanvasRecord) → (leave_canvas name c).0.id ≡ c.id
unfolding leave_canvas
id-leave_canvas name c = ground arith

module _ (e : Effect) where
  -- How many times the store owns the object of `e`.
  abbrev owned : HandleStore → ℕ
  owned s = count e (handles_destroy s)

  owned-sum :
      (s : HandleStore)
      → owned s
        ≡ count e (destroy_placements s.placements)
          + (count e (destroy_canvases s.canvases) + count e (destroy_sprites s.sprites))
  unfolding handles_destroy
  owned-sum s = omega (
    arith,
    count-append e (destroy_placements s.placements)
        (destroy_canvases s.canvases ++ destroy_sprites s.sprites),
    count-append e (destroy_canvases s.canvases) (destroy_sprites s.sprites),
  )

  owns-open :
      (id : ℕ) (name : Bytes) (c c' : CanvasRecord)
      → open_canvas id name c ≡ some c'
      → owns_canvas e c' ≡ owns_canvas e c
  unfolding open_canvas owns_canvas
  owns-open id name c c' h = ground arith

  -- handles_get_canvas moves no object, and what it returns is in the list.
  get-owned :
      (s s' : HandleStore) (id : ℕ) (name : Bytes) (c : CanvasRecord)
      → IsValid s
      → handles_get_canvas s id name ≡ some (c, s')
      → (owned s' ≡ owned s) × (canvas_at c.id s'.canvases ≡ some c)
  get-owned s s' id name c v h =
      let (cs, same, o) = get_canvas-Opened s s' id name c v h in
      let ids = open_canvas-id id name o.old c o.opened in
      let at : canvas_at c.id s.canvases ≡ some o.old = rw ids.1 o.found in
      rw (same, o.written)
        (
          omega (
            arith,
            owned-sum s,
            owned-sum (record s { canvases = put_canvas c s.canvases }),
            count-put_canvas e c o.old s.canvases at,
            owns-open id name o.old c o.opened,
          ),
          canvas_at-put c o.old s.canvases at,
        )

  -- A write to the record that was got.
  put-owned :
      (s : HandleStore) (c r : CanvasRecord) (effects : List Effect)
      → canvas_at c.id s.canvases ≡ some c
      → r.id ≡ c.id
      → count e effects + owns_canvas e r ≡ owns_canvas e c
      → count e effects + owned (record s { canvases = put_canvas r s.canvases }) ≡ owned s
  put-owned s c r effects at same h = omega (
    arith,
    owned-sum s,
    owned-sum (record s { canvases = put_canvas r s.canvases }),
    count-put_canvas e r c s.canvases (rw same at),
  )

  on_canvas-owned :
      (change : CanvasRecord → CanvasRecord × List Effect) (s : HandleStore) (id : ℕ) (name : Bytes)
      → ((c : CanvasRecord)
          → ((change c).0.id ≡ c.id)
            × (count e (change c).1 + owns_canvas e (change c).0 ≡ owns_canvas e c))
      → IsValid s
      → let (s', effects) = on_canvas change s (handles_get_canvas s id name) in
        count e effects + owned s' ≡ owned s
  unfolding on_canvas
  on_canvas-owned change s id name keep v = elim (Option-cases (handles_get_canvas s id name)) [
    | inl miss ↦ rw (miss, on_canvas) (unfold count in omega arith)
    | inr ((c, s'), hit) ↦
        let (same, at) = get-owned s s' id name c v hit in
        let k = keep c in
        rw (hit, on_canvas) (put-owned s' c (change c).0 (change c).1 at k.0 k.1 ∙ same)
  ]

  share-keeps :
      (ok : Bool) (name : Bytes) (c : CanvasRecord)
      → ((share_change ok name c).0.id ≡ c.id)
        × (count e (share_change ok name c).1 + owns_canvas e (share_change ok name c).0
            ≡ owns_canvas e c)
  unfolding canvas_record_share owns_canvas count
  share-keeps ok name c = ground arith

  barrier-keeps :
      (name : Bytes) (c : CanvasRecord)
      → ((barrier_change name c).0.id ≡ c.id)
        × (count e (barrier_change name c).1 + owns_canvas e (barrier_change name c).0
            ≡ owns_canvas e c)
  unfolding canvas_record_barrier owns_canvas count
  barrier-keeps name c = ground (arith, same_object-broadcast e c.id)

  destroy_canvas-owned :
      (s : HandleStore) (id : ℕ) (name : Bytes)
      → IsValid s
      → let (rc, s', effects) = handles_destroy_canvas_for_user s id name in
        count e effects + owned s' ≡ owned s
  unfolding handles_destroy_canvas_for_user
  destroy_canvas-owned s id name v = elim (Option-cases (handles_get_canvas s id name)) [
    | inl miss ↦ rw (miss, handles_destroy_canvas_for_user) (unfold count in omega arith)
    | inr ((c, s'), hit) ↦
        let (same, at) = get-owned s s' id name c v hit in
        let (r, effects) = leave_canvas name c in
        rw (hit, handles_destroy_canvas_for_user, count-broadcast e effects r.id)
          (put-owned s' c r effects at (id-leave_canvas name c) (owns-leave e name c) ∙ same)
  ]

  destroy_sprite-owned :
      (failed : ℕ → Bool) (s : HandleStore) (id : ℕ) (name : Bytes)
      → IsValid s
      → let (rc, s', effects) = handles_destroy_sprite failed s id name in
        count e effects + owned s' ≡ owned s
  unfolding handles_destroy_sprite owns_sprite count
  destroy_sprite-owned failed s id name v = elim (Option-cases (handles_get_sprite s id name)) [
    | inl miss ↦ rw (miss, handles_destroy_sprite) (omega arith)
    | inr (r, hit) ↦
        let r' : SpriteRecord = record r { sprite = null; deleted = true } in
        let put =
          count-put_sprite e s.next_id id name r' r s.sprites v.sprites
            (get_sprite-in s id name r hit) refl in
        ground
          (arith, hit, put, owned-sum s, owned-sum (record s { sprites = put_sprite r' s.sprites }))
  ]

  destroy_placement-owned :
      (s : HandleStore) (id : ℕ) (name : Bytes)
      → IsValid s
      → let (rc, s', effects) = handles_destroy_placement s id name in
        count e effects + owned s' ≡ owned s
  unfolding handles_destroy_placement owns_placement count
  destroy_placement-owned s id name v = elim (Option-cases (handles_get_placement s id name)) [
    | inl miss ↦ rw (miss, handles_destroy_placement) (omega arith)
    | inr (r, hit) ↦
        let r' : PlacementRecord = record r { placement = null; deleted = true } in
        let put =
          count-put_placement e s.next_id id name r' r s.placements v.placements
            (get_placement-in s id name r hit) refl in
        ground (
          arith,
          hit,
          put,
          owned-sum s,
          owned-sum (record s { placements = put_placement r' s.placements }),
        )
  ]

  add_canvas-owned :
      (s : HandleStore) (rec_ok user_ok : Bool) (p w h : ℕ) (name : Bytes)
      → IsValid s
      → let (id, s') = handles_add_canvas rec_ok user_ok s p w h name in
        owned s' ≡ count e (if id == invalid_handle then [] else canvas_destroyed p ∷ []) + owned s
  unfolding handles_add_canvas owns_canvas destroy_canvases count
  add_canvas-owned s rec_ok user_ok p w h name v =
      ground (arith, owned-sum s, owned-sum (handles_add_canvas rec_ok user_ok s p w h name).1)

  add_sprite-owned :
      (s : HandleStore) (ok : Bool) (p : ℕ) (name : Bytes)
      → IsValid s
      → let (id, s') = handles_add_sprite ok s p name in
        owned s' ≡ count e (if id == invalid_handle then [] else sprite_destroyed p ∷ []) + owned s
  unfolding handles_add_sprite destroy_sprites count
  add_sprite-owned s ok p name v =
      ground (arith, owned-sum s, owned-sum (handles_add_sprite ok s p name).1)

  add_placement-owned :
      (s : HandleStore) (ok : Bool) (p c r : ℕ) (name : Bytes)
      → IsValid s
      → let (id, s') = handles_add_placement ok s p c r name in
        owned s'
        ≡ count e (if id == invalid_handle then [] else placement_destroyed p ∷ []) + owned s
  unfolding handles_add_placement destroy_placements count
  add_placement-owned s ok p c r name v =
      ground (arith, owned-sum s, owned-sum (handles_add_placement ok s p c r name).1)

  -- A call destroys what leaves the store's ownership, once, and no other object.
  pub perform-owned :
      (s : HandleStore) (call : Call)
      → IsValid s
      → let (s', effects) = perform s call in
        count e effects + owned s' ≡ count e (handed s call) + owned s
  unfolding perform handed count handles_disconnect_user
  perform-owned s (add_canvas rec_ok user_ok p w h name) v =
      omega (arith, add_canvas-owned s rec_ok user_ok p w h name v)
  perform-owned s (add_sprite ok p name) v = omega (arith, add_sprite-owned s ok p name v)
  perform-owned s (add_placement ok p c r name) v =
      omega (arith, add_placement-owned s ok p c r name v)
  perform-owned s (get_canvas id name) v =
      omega (arith, on_canvas-owned (λ c. (c, [])) s id name (λ c. (refl, omega arith)) v)
  perform-owned s (share ok id name other) v =
      omega (arith, on_canvas-owned (share_change ok other) s id name (share-keeps ok other) v)
  perform-owned s (barrier id name) v =
      omega (arith, on_canvas-owned (barrier_change name) s id name (barrier-keeps name) v)
  perform-owned s (destroy_canvas id name) v = omega (arith, destroy_canvas-owned s id name v)
  perform-owned s (destroy_sprite failed id name) v =
      omega (arith, destroy_sprite-owned failed s id name v)
  perform-owned s (destroy_placement id name) v = omega (arith, destroy_placement-owned s id name v)
  perform-owned s (disconnect []) v = refl
  perform-owned s (disconnect (b ∷ name)) v = ground (
    arith,
    owned-sum s,
    owned-sum (handles_disconnect_user s (b ∷ name)).0,
    disconnect-count e (b ∷ name) s.canvases,
  )
