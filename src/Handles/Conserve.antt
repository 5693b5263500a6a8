-- ===== src/Handles/Conserve.antt =====
-- handles.c, how often an object of the animate library is destroyed.
use comp_p.Common.{
  ℕ, suc, ◌+◌, ◌≡◌, refl, Bool, false, List, [], ◌∷◌, ◌++◌, some, ◌==◌, if◌then◌else◌, Bytes,
  Option-cases, inl, inr, arith,
}
use comp_p.Handles.{
  SharedUser, CanvasRecord, SpriteRecord, PlacementRecord, Effect, canvas_destroyed,
  sprite_destroyed, placement_destroyed, broadcast, null,
}
use comp_p.Handles.Users.{maybe_destroy_canvas, find_shared_user, update_shared_user, leave}
use comp_p.Handles.Records.{Sprites, Placements, canvas_at, sprite-below, placement-below}
use comp_p.Handles.Store.{
  put_canvas, put_sprite, put_placement, leave_canvas, disconnect_canvas, disconnect_canvases,
  destroy_placements, destroy_canvases, destroy_sprites, get_sprite_in, get_placement_in,
}

-- Two effects on the same object; a broadcast is on none.
unfoldable pub same_object : Effect → Effect → Bool
same_object (canvas_destroyed p) (canvas_destroyed q) = p == q
same_object (sprite_destroyed p) (sprite_destroyed q) = p == q
same_object (placement_destroyed p) (placement_destroyed q) = p == q
same_object e f = false

unfoldable pub count : Effect → List Effect → ℕ
count e [] = 0
count e (f ∷ fs) = if same_object e f then suc (count e fs) else count e fs

pub count-append : (e : Effect) (fs gs : List Effect) → count e (fs ++ gs) ≡ count e fs + count e gs
unfolding count
count-append e [] gs = omega arith
count-append e (f ∷ fs) gs = ground (arith, count-append e fs gs)

pub same_object-broadcast : (e : Effect) (id : ℕ) → same_object e (broadcast id) ≡ false
unfolding same_object
same_object-broadcast (canvas_destroyed p) id = refl
same_object-broadcast (sprite_destroyed p) id = refl
same_object-broadcast (placement_destroyed p) id = refl
same_object-broadcast (broadcast p) id = refl

pub count-broadcast :
    (e : Effect) (fs : List Effect) (id : ℕ) → count e (fs ++ (broadcast id ∷ [])) ≡ count e fs
unfolding count
count-broadcast e fs id =
    ground (arith, count-append e fs (broadcast id ∷ []), same_object-broadcast e id)

module _ (e : Effect) where
  -- How often a record owns the object of `e`.
  unfoldable pub owns_canvas : CanvasRecord → ℕ
  owns_canvas c = if c.canvas == null then 0 else count e (canvas_destroyed c.canvas ∷ [])

  unfoldable pub owns_sprite : SpriteRecord → ℕ
  owns_sprite c = if c.sprite == null then 0 else count e (sprite_destroyed c.sprite ∷ [])

  unfoldable pub owns_placement : PlacementRecord → ℕ
  owns_placement c =
      if c.placement == null then 0 else count e (placement_destroyed c.placement ∷ [])

  pub canvases-cons :
      (c : CanvasRecord) (cs : List CanvasRecord)
      → count e (destroy_canvases (c ∷ cs)) ≡ owns_canvas c + count e (destroy_canvases cs)
  unfolding owns_canvas destroy_canvases count
  canvases-cons c cs = ground arith

  pub sprites-cons :
      (c : SpriteRecord) (cs : List SpriteRecord)
      → count e (destroy_sprites (c ∷ cs)) ≡ owns_sprite c + count e (destroy_sprites cs)
  unfolding owns_sprite destroy_sprites count
  sprites-cons c cs = ground arith

  pub placements-cons :
      (c : PlacementRecord) (cs : List PlacementRecord)
      → count e (destroy_placements (c ∷ cs)) ≡ owns_placement c + count e (destroy_placements cs)
  unfolding owns_placement destroy_placements count
  placements-cons c cs = ground arith

  -- A write to a record changes what its list owns by what the record owns.
  pub count-put_canvas :
      (r c : CanvasRecord) (cs : List CanvasRecord)
      → canvas_at r.id cs ≡ some c
      → count e (destroy_canvases (put_canvas r cs)) + owns_canvas c
        ≡ count e (destroy_canvases cs) + owns_canvas r
  unfolding canvas_at put_canvas
  count-put_canvas r c [] h = absurd (cc)
  count-put_canvas r c (d ∷ cs) h = ground (
    arith,
    count-put_canvas r c cs,
    canvases-cons d cs,
    canvases-cons r cs,
    canvases-cons d (put_canvas r cs),
  )

  pub count-put_sprite :
      (n id : ℕ) (name : Bytes) (r c : SpriteRecord) (cs : List SpriteRecord)
      → Sprites n cs
      → get_sprite_in id name cs ≡ some c
      → r.id ≡ c.id
      → count e (destroy_sprites (put_sprite r cs)) + owns_sprite c
        ≡ count e (destroy_sprites cs) + owns_sprite r
  unfolding get_sprite_in put_sprite
  count-put_sprite n id name r c [] v h k = absurd (cc)
  count-put_sprite n id name r c (d ∷ cs) v h k = ground (
    arith,
    count-put_sprite d.id id name r c cs v.3,
    sprite-below d.id id name cs c v.3,
    sprites-cons d cs,
    sprites-cons r cs,
    sprites-cons d (put_sprite r cs),
  )

  pub count-put_placement :
      (n id : ℕ) (name : Bytes) (r c : PlacementRecord) (cs : List PlacementRecord)
      → Placements n cs
      → get_placement_in id name cs ≡ some c
      → r.id ≡ c.id
      → count e (destroy_placements (put_placement r cs)) + owns_placement c
        ≡ count e (destroy_placements cs) + owns_placement r
  unfolding get_placement_in put_placement
  count-put_placement n id name r c [] v h k = absurd (cc)
  count-put_placement n id name r c (d ∷ cs) v h k = ground (
    arith,
    count-put_placement d.id id name r c cs v.3,
    placement-below d.id id name cs c v.3,
    placements-cons d cs,
    placements-cons r cs,
    placements-cons d (put_placement r cs),
  )

  -- Whoever leaves, the object stays owned or is destroyed.
  owns-maybe_destroy :
      (c : CanvasRecord)
      → count e (maybe_destroy_canvas c).1 + owns_canvas (maybe_destroy_canvas c).0 ≡ owns_canvas c
  unfolding maybe_destroy_canvas owns_canvas count
  owns-maybe_destroy c = ground arith

  pub owns-leave :
      (name : Bytes) (c : CanvasRecord)
      → count e (leave_canvas name c).1 + owns_canvas (leave_canvas name c).0 ≡ owns_canvas c
  unfolding leave_canvas owns_canvas count
  owns-leave name c = ground arith

  owns-users :
      (c : CanvasRecord) (us : List SharedUser)
      → owns_canvas (record c { users = us }) ≡ owns_canvas c
  unfolding owns_canvas
  owns-users c us = refl

  owns-disconnect :
      (name : Bytes) (c : CanvasRecord)
      → count e (disconnect_canvas name c).1 + owns_canvas (disconnect_canvas name c).0
        ≡ owns_canvas c
  unfolding disconnect_canvas
  owns-disconnect name c =
      let left : CanvasRecord = record c { users = update_shared_user name leave c.users } in
      elim (Option-cases (find_shared_user name c.users)) [
        | inl miss ↦ rw (miss, disconnect_canvas) (nothing)
        | inr (u, hit) ↦
            rw (hit, disconnect_canvas)
              (omega (
                arith,
                count-broadcast e (maybe_destroy_canvas left).1 (maybe_destroy_canvas left).0.id,
                owns-maybe_destroy left,
                owns-users c (update_shared_user name leave c.users),
              ))
      ]
    where
      nothing : count e [] + owns_canvas c ≡ owns_canvas c
      nothing = unfold count in omega arith

  pub disconnect-count :
      (name : Bytes) (cs : List CanvasRecord)
      → count e (disconnect_canvases name cs).1
          + count e (destroy_canvases (disconnect_canvases name cs).0)
        ≡ count e (destroy_canvases cs)
  unfolding disconnect_canvases
  disconnect-count name [] = unfold count destroy_canvases in refl
  disconnect-count name (c ∷ cs) =
      let (rs, more) = disconnect_canvases name cs in
      let (r, effects) = disconnect_canvas name c in
      omega (
        arith,
        count-append e effects more,
        canvases-cons r rs,
        canvases-cons c cs,
        owns-disconnect name c,
        disconnect-count name cs,
      )
