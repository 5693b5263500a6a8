-- ===== src/Rpc/Place.antt =====
-- The requests on placements, which wait on the barrier of their canvas first.
use comp_p.Common.{ℕ, List, [], ◌∷◌, Option, none, some, ◌==◌, if◌then◌else◌, Bytes, ◌>>=◌}
use comp_p.CString.Number.{ℤ, pos}
use comp_p.Handles.{
  HandleStore, CanvasRecord, SpriteRecord, PlacementRecord, placement_destroyed, null,
  invalid_handle,
}
use comp_p.Handles.Store.{
  handles_add_placement, handles_get_canvas, handles_get_sprite, handles_get_placement,
}
use comp_p.Rpc.{
  Environment, handed, placed, moved, params_set, Move, World, Next, to_place, to_move, to_set,
  Outcome, answered, paused, with_log, with_handles,
}
use comp_p.Rpc.Text.{rpc_value, rpc_internal, response_code, response_u64, parse_u64, parse_ssize}

-- The records that a request found before its wait, read through their pointers after it.
unfoldable pub canvas_ptr : ℕ → List CanvasRecord → ℕ
canvas_ptr id [] = null
canvas_ptr id (r ∷ rs) = if r.id == id then r.canvas else canvas_ptr id rs

unfoldable pub sprite_ptr : ℕ → List SpriteRecord → ℕ
sprite_ptr id [] = null
sprite_ptr id (r ∷ rs) = if r.id == id then r.sprite else sprite_ptr id rs

unfoldable pub placement_ptr : ℕ → List PlacementRecord → ℕ
placement_ptr id [] = null
placement_ptr id (r ∷ rs) = if r.id == id then r.placement else placement_ptr id rs

unfoldable pub place_arguments : List Bytes → Option (ℕ × ℕ × ℤ × ℤ)
place_arguments (c ∷ s ∷ a ∷ b ∷ []) = do
  let canvas_id = (← parse_u64 c)
  let sprite_id = (← parse_u64 s)
  let x = (← parse_ssize a)
  let y = (← parse_ssize b)
  some (canvas_id, sprite_id, x, y)
place_arguments _ = none

-- handles_get_canvas marks its user as connected before the sprite is looked up.
unfoldable pub place_on : World → ℕ → ℤ → ℤ → Option (CanvasRecord × HandleStore) → Outcome
place_on w sprite_id x y none = answered (response_code rpc_value) w
place_on w sprite_id x y (some (c, s)) = elim (handles_get_sprite s sprite_id w.client.username) [
  | none ↦ answered (response_code rpc_value) (with_handles s w)
  | some r ↦ paused c.id w.client.username (to_place r.id x y) (with_handles s w)
]

unfoldable pub place_sprite : World → List Bytes → Outcome
place_sprite w args = elim (place_arguments args) [
  | none ↦ answered (response_code rpc_value) w
  | some (canvas_id, sprite_id, x, y) ↦
      place_on w sprite_id x y (handles_get_canvas w.handles canvas_id w.client.username)
]

-- After the wait.
unfoldable pub place_now : Environment → World → ℕ → ℕ → ℤ → ℤ → Outcome
place_now env w canvas_id sprite_id x y =
    let canvas = canvas_ptr canvas_id w.handles.canvases in
    let sprite = sprite_ptr sprite_id w.handles.sprites in
    let placement = env.animate_place_sprite canvas sprite x y in
    let w' = with_log (placed canvas sprite x y ∷ []) w in
    let (id, s) =
      handles_add_placement env.record_ok w.handles placement canvas_id sprite_id
        w.client.username in
    if placement == null
    then answered (response_code rpc_internal) w'
    else if id == invalid_handle
    then answered (response_code rpc_internal)
        (with_log (handed (placement_destroyed placement) ∷ []) w')
    else answered (response_u64 id) (with_handles s w')

-- The wait, if the canvas of the placement is open to the user; else the request goes on at once.
unfoldable pub wait_canvas : World → Next → Outcome → Option (CanvasRecord × HandleStore) → Outcome
wait_canvas w next now none = now
wait_canvas w next now (some (c, s)) = paused c.id w.client.username next (with_handles s w)

unfoldable pub move_now : World → Move → ℕ → Outcome
move_now w move placement_id =
    answered (response_code (pos 0))
      (with_log (moved move (placement_ptr placement_id w.handles.placements) ∷ []) w)

unfoldable pub set_now : World → ℕ → ℤ → ℤ → ℤ → ℤ → Outcome
set_now w placement_id vx vy ax ay =
    answered (response_code (pos 0))
      (with_log (params_set (placement_ptr placement_id w.handles.placements) vx vy ax ay ∷ []) w)

unfoldable pub with_placement :
    World → (PlacementRecord → Next) → (PlacementRecord → Outcome) → ℕ → Outcome
with_placement w next now id = elim (handles_get_placement w.handles id w.client.username) [
  | none ↦ answered (response_code rpc_value) w
  | some p ↦
      wait_canvas w (next p) (now p) (handles_get_canvas w.handles p.canvas_id w.client.username)
]

unfoldable pub placement_move : Move → World → List Bytes → Outcome
placement_move move w (id ∷ []) = elim (parse_u64 id) [
  | none ↦ answered (response_code rpc_value) w
  | some n ↦ with_placement w (λ p. to_move move p.id) (λ p. move_now w move p.id) n
]
placement_move move w _ = answered (response_code rpc_value) w

unfoldable pub params_arguments : List Bytes → Option (ℕ × ℤ × ℤ × ℤ × ℤ)
params_arguments (i ∷ a ∷ b ∷ c ∷ d ∷ []) = do
  let id = (← parse_u64 i)
  let vx = (← parse_ssize a)
  let vy = (← parse_ssize b)
  let ax = (← parse_ssize c)
  let ay = (← parse_ssize d)
  some (id, vx, vy, ax, ay)
params_arguments _ = none

unfoldable pub set_animation_params : World → List Bytes → Outcome
set_animation_params w args = elim (params_arguments args) [
  | none ↦ answered (response_code rpc_value) w
  | some (id, vx, vy, ax, ay) ↦
      with_placement w (λ p. to_set p.id vx vy ax ay) (λ p. set_now w p.id vx vy ax ay) id
]
