-- ===== src/Handles/Store.antt =====
-- The operations on the store. Success of an allocation is an argument; the store pointer, owners
-- and user names are not NULL, as in all calls that the server makes.
use comp_p.Common.{
  ℕ, ◌+◌, ◌%◌, Bool, true, false, not, ◌&&◌, ◌||◌, List, [], ◌∷◌, ◌++◌, Option, none, some, ◌==◌,
  if◌then◌else◌, Bytes, str_eq,
}
use comp_p.CString.Number.{ℤ, pos, negsuc}
use comp_p.Handles.{
  CanvasRecord, SpriteRecord, PlacementRecord, HandleStore, Effect, canvas_destroyed,
  sprite_destroyed, placement_destroyed, broadcast, invalid_handle, null, u64_mod,
}
use comp_p.Handles.Users.{
  copy_username, find_shared_user, update_shared_user, connect, leave, canvas_has_connected_user,
  maybe_destroy_canvas,
}

-- The arguments: whether calloc and pthread_mutex_init succeed.
unfoldable pub handles_create : Bool → Bool → Option HandleStore
handles_create calloc_ok mutex_ok =
    if not calloc_ok
    then none
    else if not mutex_ok
    then none
    else some (record { next_id = 1; canvases = []; sprites = []; placements = [] })

unfoldable pub next : ℕ → ℕ
next n = (n + 1) % u64_mod

unfoldable pub handles_add_canvas : Bool → Bool → HandleStore → ℕ → ℕ → ℕ → Bytes → ℕ × HandleStore
unfolding next
handles_add_canvas record_ok user_ok s canvas width height owner =
    if canvas == null || (not record_ok || not user_ok) then (invalid_handle, s) else (
      s.next_id,
      record s {
        next_id = next s.next_id;
        canvases =
            record {
              id = s.next_id;
              canvas = canvas;
              width = width;
              height = height;
              deleted = false;
              users =
                  record {
                    username = copy_username owner;
                    connected = true;
                    barrier_waiting = false;
                  }
                  ∷ [];
            }
            ∷ s.canvases;
      },
    )

unfoldable pub handles_add_sprite : Bool → HandleStore → ℕ → Bytes → ℕ × HandleStore
unfolding next
handles_add_sprite record_ok s sprite owner =
    if sprite == null || not record_ok then (invalid_handle, s) else (
      s.next_id,
      record s {
        next_id = next s.next_id;
        sprites =
            record { id = s.next_id; sprite = sprite; owner = copy_username owner; deleted = false }
            ∷ s.sprites;
      },
    )

unfoldable pub handles_add_placement : Bool → HandleStore → ℕ → ℕ → ℕ → Bytes → ℕ × HandleStore
unfolding next
handles_add_placement record_ok s placement canvas_id sprite_id owner =
    if placement == null || not record_ok then (invalid_handle, s) else (
      s.next_id,
      record s {
        next_id = next s.next_id;
        placements =
            record {
              id = s.next_id;
              placement = placement;
              canvas_id = canvas_id;
              sprite_id = sprite_id;
              owner = copy_username owner;
              deleted = false;
            }
            ∷ s.placements;
      },
    )

-- The record if the loop of handles_get_canvas returns it, with the user marked as connected.
unfoldable pub open_canvas : ℕ → Bytes → CanvasRecord → Option CanvasRecord
open_canvas id name c =
    if c.id == id && (not (c.canvas == null) && not c.deleted)
    then elim (find_shared_user name c.users) [
      | none ↦ none
      | some u ↦ some (record c { users = update_shared_user name connect c.users })
    ]
    else none

unfoldable pub get_canvas_in :
    ℕ → Bytes → List CanvasRecord → Option (CanvasRecord × List CanvasRecord)
unfolding open_canvas
get_canvas_in id name [] = none
get_canvas_in id name (c ∷ cs) = elim (open_canvas id name c) [
  | some c' ↦ some (c', c' ∷ cs)
  | none ↦ elim (get_canvas_in id name cs) [ none ↦ none | some (r, cs') ↦ some (r, c ∷ cs') ]
]

unfoldable pub handles_get_canvas : HandleStore → ℕ → Bytes → Option (CanvasRecord × HandleStore)
unfolding get_canvas_in
handles_get_canvas s id name =
    if id == invalid_handle then none else elim (get_canvas_in id name s.canvases) [
      | none ↦ none
      | some (c, cs) ↦ some (c, record s { canvases = cs })
    ]

unfoldable pub sprite_matches : ℕ → Bytes → SpriteRecord → Bool
sprite_matches id name r =
    r.id == id && (not (r.sprite == null) && (not r.deleted && str_eq r.owner name))

unfoldable pub get_sprite_in : ℕ → Bytes → List SpriteRecord → Option SpriteRecord
unfolding sprite_matches
get_sprite_in id name [] = none
get_sprite_in id name (r ∷ rs) =
    if sprite_matches id name r then some r else get_sprite_in id name rs

unfoldable pub handles_get_sprite : HandleStore → ℕ → Bytes → Option SpriteRecord
unfolding get_sprite_in
handles_get_sprite s id name =
    if id == invalid_handle then none else get_sprite_in id name s.sprites

unfoldable pub placement_matches : ℕ → Bytes → PlacementRecord → Bool
placement_matches id name r =
    r.id == id && (not (r.placement == null) && (not r.deleted && str_eq r.owner name))

unfoldable pub get_placement_in : ℕ → Bytes → List PlacementRecord → Option PlacementRecord
unfolding placement_matches
get_placement_in id name [] = none
get_placement_in id name (r ∷ rs) =
    if placement_matches id name r then some r else get_placement_in id name rs

unfoldable pub handles_get_placement : HandleStore → ℕ → Bytes → Option PlacementRecord
unfolding get_placement_in
handles_get_placement s id name =
    if id == invalid_handle then none else get_placement_in id name s.placements

-- Writes through a record pointer.
unfoldable pub put_canvas : CanvasRecord → List CanvasRecord → List CanvasRecord
put_canvas r [] = []
put_canvas r (c ∷ cs) = if c.id == r.id then r ∷ cs else c ∷ put_canvas r cs

unfoldable pub put_sprite : SpriteRecord → List SpriteRecord → List SpriteRecord
put_sprite r [] = []
put_sprite r (c ∷ cs) = if c.id == r.id then r ∷ cs else c ∷ put_sprite r cs

unfoldable pub put_placement : PlacementRecord → List PlacementRecord → List PlacementRecord
put_placement r [] = []
put_placement r (c ∷ cs) = if c.id == r.id then r ∷ cs else c ∷ put_placement r cs

-- The record after the user has left it, deleted if no connected user is left.
unfoldable pub leave_canvas : Bytes → CanvasRecord → CanvasRecord × List Effect
unfolding canvas_has_connected_user maybe_destroy_canvas
leave_canvas name c =
    let left : CanvasRecord = record c { users = update_shared_user name leave c.users } in
    maybe_destroy_canvas
      (if canvas_has_connected_user left then left else record left { deleted = true })

unfoldable pub handles_destroy_canvas_for_user :
    HandleStore → ℕ → Bytes → ℤ × HandleStore × List Effect
handles_destroy_canvas_for_user s id name = elim (handles_get_canvas s id name) [
  | none ↦ (negsuc 0, s, [])
  | some (c, s') ↦
      let (r, effects) = leave_canvas name c in
      (pos 0, record s' { canvases = put_canvas r s'.canvases }, effects ++ (broadcast r.id ∷ []))
]

-- `failed p` is what animate_destroy_sprite returns for p.
unfoldable pub handles_destroy_sprite :
    (ℕ → Bool) → HandleStore → ℕ → Bytes → ℤ × HandleStore × List Effect
handles_destroy_sprite failed s id name = elim (handles_get_sprite s id name) [
  | none ↦ (negsuc 0, s, [])
  | some r ↦
      let r' : SpriteRecord = record r { sprite = null; deleted = true } in
      let s' : HandleStore = record s { sprites = put_sprite r' s.sprites } in
      if not (r.sprite == null)
      then (if failed r.sprite then (pos 1, s, []) else (pos 0, s', sprite_destroyed r.sprite ∷ []))
      else (pos 0, s', [])
]

unfoldable pub handles_destroy_placement : HandleStore → ℕ → Bytes → ℤ × HandleStore × List Effect
handles_destroy_placement s id name = elim (handles_get_placement s id name) [
  | none ↦ (negsuc 0, s, [])
  | some r ↦
      let r' : PlacementRecord = record r { placement = null; deleted = true } in
      (
        pos 0,
        record s { placements = put_placement r' s.placements },
        (if not (r.placement == null) then placement_destroyed r.placement ∷ [] else []),
      )
]

-- The body of the loop of handles_disconnect_user.
unfoldable pub disconnect_canvas : Bytes → CanvasRecord → CanvasRecord × List Effect
unfolding maybe_destroy_canvas
disconnect_canvas name c = elim (find_shared_user name c.users) [
  | none ↦ (c, [])
  | some u ↦
      let (r, effects) =
        maybe_destroy_canvas (record c { users = update_shared_user name leave c.users }) in
      (r, effects ++ (broadcast r.id ∷ []))
]

unfoldable pub disconnect_canvases : Bytes → List CanvasRecord → List CanvasRecord × List Effect
unfolding disconnect_canvas
disconnect_canvases name [] = ([], [])
disconnect_canvases name (c ∷ cs) =
    let (r, effects) = disconnect_canvas name c in
    let (rs, more) = disconnect_canvases name cs in (r ∷ rs, effects ++ more)

unfoldable pub handles_disconnect_user : HandleStore → Bytes → HandleStore × List Effect
unfolding disconnect_canvases
handles_disconnect_user s [] = (s, [])
handles_disconnect_user s (b ∷ name) =
    let (cs, effects) = disconnect_canvases (b ∷ name) s.canvases in
    (record s { canvases = cs }, effects)

-- The three loops of handles_destroy.
unfoldable pub destroy_placements : List PlacementRecord → List Effect
destroy_placements [] = []
destroy_placements (r ∷ rs) =
    if not (r.placement == null)
    then placement_destroyed r.placement ∷ destroy_placements rs
    else destroy_placements rs

unfoldable pub destroy_canvases : List CanvasRecord → List Effect
destroy_canvases [] = []
destroy_canvases (r ∷ rs) =
    if not (r.canvas == null)
    then canvas_destroyed r.canvas ∷ destroy_canvases rs
    else destroy_canvases rs

unfoldable pub destroy_sprites : List SpriteRecord → List Effect
destroy_sprites [] = []
destroy_sprites (r ∷ rs) =
    if not (r.sprite == null)
    then sprite_destroyed r.sprite ∷ destroy_sprites rs
    else destroy_sprites rs

unfoldable pub handles_destroy : HandleStore → List Effect
unfolding destroy_placements destroy_canvases destroy_sprites
handles_destroy s =
    destroy_placements s.placements ++ (destroy_canvases s.canvases ++ destroy_sprites s.sprites)
