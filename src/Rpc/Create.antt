-- ===== src/Rpc/Create.antt =====
-- The requests that create and destroy objects.
use comp_p.Common.{
  ℕ, Bool, ◌||◌, List, [], ◌∷◌, Option, none, some, ◌==◌, if◌then◌else◌, Bytes, ◌>>=◌, map,
}
use comp_p.CString.Number.{ℤ, pos, negsuc}
use comp_p.Handles.{Effect, canvas_destroyed, sprite_destroyed, null, invalid_handle}
use comp_p.Handles.Store.{
  handles_add_canvas, handles_add_sprite, handles_destroy_canvas_for_user, handles_destroy_sprite,
  handles_destroy_placement,
}
use comp_p.Rpc.{Environment, handed, World, Outcome, answered, with_log, with_handles}
use comp_p.Rpc.Text.{
  rpc_fail, rpc_value, rpc_internal, response_code, response_u64, parse_u64, parse_size,
  parse_color, parse_bool_token,
}

unfoldable pub canvas_arguments : List Bytes → Option (ℕ × ℕ × ℕ)
canvas_arguments (h ∷ w ∷ c ∷ []) = do
  let height = (← parse_size h)
  let width = (← parse_size w)
  let color = (← parse_color c)
  if height == 0 || width == 0 then none else some (height, width, color)
canvas_arguments _ = none

-- The canvas, if the library has made it, gets a handle or is destroyed.
unfoldable pub add_new_canvas : Environment → World → ℕ → ℕ → ℕ → Outcome
add_new_canvas env w canvas width height =
    let (id, s) =
      handles_add_canvas env.record_ok env.user_ok w.handles canvas width height
        w.client.username in
    if canvas == null
    then answered (response_code rpc_internal) w
    else if id == invalid_handle
    then answered (response_code rpc_internal) (with_log (handed (canvas_destroyed canvas) ∷ []) w)
    else answered (response_u64 id) (with_handles s w)

unfoldable pub create_canvas : Environment → World → List Bytes → Outcome
create_canvas env w args = elim (canvas_arguments args) [
  | none ↦ answered (response_code rpc_value) w
  | some (height, width, color) ↦
      add_new_canvas env w (env.animate_create_canvas height width color) width height
]

-- The sprite, if the library has made it, gets a handle or is destroyed.
unfoldable pub add_new_sprite : Environment → World → ℕ → Outcome
add_new_sprite env w sprite =
    let (id, s) = handles_add_sprite env.record_ok w.handles sprite w.client.username in
    if sprite == null
    then answered (response_code rpc_internal) w
    else if id == invalid_handle
    then answered (response_code rpc_internal) (with_log (handed (sprite_destroyed sprite) ∷ []) w)
    else answered (response_u64 id) (with_handles s w)

unfoldable pub create_sprite : Environment → World → List Bytes → Outcome
create_sprite env w (file ∷ []) = add_new_sprite env w (env.animate_create_sprite file)
create_sprite env w _ = answered (response_code rpc_fail) w

unfoldable pub rectangle_arguments : List Bytes → Option (ℕ × ℕ × ℕ × Bool)
rectangle_arguments (w ∷ h ∷ c ∷ f ∷ []) = do
  let width = (← parse_size w)
  let height = (← parse_size h)
  let color = (← parse_color c)
  let filled = (← parse_bool_token f)
  if width == 0 || height == 0 then none else some (width, height, color, filled)
rectangle_arguments _ = none

unfoldable pub create_rectangle : Environment → World → List Bytes → Outcome
create_rectangle env w args = elim (rectangle_arguments args) [
  | none ↦ answered (response_code rpc_value) w
  | some (width, height, color, filled) ↦
      add_new_sprite env w (env.animate_create_rectangle width height color filled)
]

unfoldable pub circle_arguments : List Bytes → Option (ℕ × ℕ × Bool)
circle_arguments (r ∷ c ∷ f ∷ []) = do
  let radius = (← parse_size r)
  let color = (← parse_color c)
  let filled = (← parse_bool_token f)
  if radius == 0 then none else some (radius, color, filled)
circle_arguments _ = none

unfoldable pub create_circle : Environment → World → List Bytes → Outcome
create_circle env w args = elim (circle_arguments args) [
  | none ↦ answered (response_code rpc_value) w
  | some (radius, color, filled) ↦
      add_new_sprite env w (env.animate_create_circle radius color filled)
]

unfoldable pub one_handle : List Bytes → Option ℕ
one_handle (id ∷ []) = parse_u64 id
one_handle _ = none

-- `rc == 0 ? 0 : error`.
unfoldable pub code_of : ℤ → ℤ → ℤ
code_of error (pos n) = if n == 0 then pos 0 else error
code_of error (negsuc n) = error

abbrev pub logged : List Effect → World → World
logged effects w = with_log (map handed effects) w

unfoldable pub destroy_canvas : World → List Bytes → Outcome
destroy_canvas w args = elim (one_handle args) [
  | none ↦ answered (response_code rpc_value) w
  | some id ↦
      let (rc, s, effects) = handles_destroy_canvas_for_user w.handles id w.client.username in
      answered (response_code (code_of rpc_value rc)) (logged effects (with_handles s w))
]

-- The result -1 is an error; any other is sent with the prefix "0 ".
unfoldable pub sprite_reply : ℤ → Bytes
sprite_reply (pos n) = response_u64 n
sprite_reply (negsuc n) = response_code rpc_value

unfoldable pub destroy_sprite : Environment → World → List Bytes → Outcome
destroy_sprite env w args = elim (one_handle args) [
  | none ↦ answered (response_code rpc_value) w
  | some id ↦
      let (rc, s, effects) =
        handles_destroy_sprite env.animate_destroy_sprite w.handles id w.client.username in
      answered (sprite_reply rc) (logged effects (with_handles s w))
]

unfoldable pub destroy_placement : World → List Bytes → Outcome
destroy_placement w args = elim (one_handle args) [
  | none ↦ answered (response_code rpc_value) w
  | some id ↦
      let (rc, s, effects) = handles_destroy_placement w.handles id w.client.username in
      answered (response_code (code_of rpc_value rc)) (logged effects (with_handles s w))
]
