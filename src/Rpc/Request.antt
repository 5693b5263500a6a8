-- ===== src/Rpc/Request.antt =====
-- rpc_handle_request: what a worker does with a request, up to its response or its wait, and what
-- it does when it is woken.
use comp_p.Common.{
  ℕ, suc, Bool, true, false, not, List, [], ◌∷◌, ◌++◌, Option, none, some, ◌==◌, if◌then◌else◌,
  Bytes, codes, str_eq,
}
use comp_p.CString.{strncpy}
use comp_p.CString.Number.{ℤ, pos, negsuc}
use comp_p.Auth.{auth_valid_username, auth_lookup}
use comp_p.Handles.{CanvasRecord, max_username_len}
use comp_p.Handles.Store.{handles_disconnect_user}
use comp_p.Handles.Barrier.{returned, waiting, wait_turn}
use comp_p.ServerCommon.{ClientState}
use comp_p.Rpc.{
  Environment, World, Next, to_place, to_move, to_set, to_pass, to_generate, up, down, top, bottom,
  Outcome, answered, paused, with_handles, with_client,
}
use comp_p.Rpc.Text.{
  rpc_fail, rpc_value, rpc_internal, response_code, response_i32, tokenize, newline,
}
use comp_p.Rpc.Create.{
  create_canvas, create_sprite, create_rectangle, create_circle, destroy_canvas, destroy_sprite,
  destroy_placement, logged,
}
use comp_p.Rpc.Place.{
  place_sprite, placement_move, set_animation_params, place_now, move_now, set_now,
}
use comp_p.Rpc.Share.{share_canvas, barrier}
use comp_p.Rpc.Generate.{handle_generate, generate_now}

-- The balance is positive.
unfoldable pub is_positive : ℤ → Bool
is_positive (pos n) = not (n == 0)
is_positive (negsuc n) = false

unfoldable pub log_in : Bytes → ℤ → ClientState → ClientState
log_in name balance c = record c {
  username = strncpy max_username_len name;
  balance = balance;
  logged_in = true;
}

unfoldable pub leave_soon : ℕ → ClientState → ClientState
leave_soon now c = record c { disconnect_after = suc now }

unfoldable pub login_reply : ℕ → World → Bytes → Option ℤ → Outcome
login_reply now w name none =
    answered (codes "Reject UNAUTHORISED" ++ (newline ∷ []))
      (with_client (leave_soon now w.client) w)
login_reply now w name (some balance) =
    if not (is_positive balance)
    then answered (codes "Reject BALANCE" ++ (newline ∷ []))
        (with_client (leave_soon now w.client) w)
    else answered (response_i32 balance) (with_client (log_in name balance w.client) w)

unfoldable pub login : ℕ → World → List Bytes → Outcome
login now w (name ∷ []) =
    if not (auth_valid_username (some name))
    then answered (response_code rpc_fail) w
    else login_reply now w name (auth_lookup w.auth (some name))
login now w _ = answered (response_code rpc_fail) w

unfoldable pub rpc_client_disconnected : ℕ → World → World
rpc_client_disconnected now w =
    let (s, effects) = handles_disconnect_user w.handles w.client.username in
    if not w.client.logged_in
    then w
    else logged effects (
        with_client (record (leave_soon now w.client) { logged_in = false; username = [] })
          (with_handles s w))

-- The commands that need a login.
unfoldable pub session_command : Environment → World → Bytes → List Bytes → Outcome
session_command env w name args =
    if str_eq name (codes "create_canvas")
    then create_canvas env w args
    else if str_eq name (codes "create_sprite")
    then create_sprite env w args
    else if str_eq name (codes "create_rectangle")
    then create_rectangle env w args
    else if str_eq name (codes "create_circle")
    then create_circle env w args
    else if str_eq name (codes "destroy_canvas")
    then destroy_canvas w args
    else if str_eq name (codes "destroy_sprite")
    then destroy_sprite env w args
    else if str_eq name (codes "place_sprite")
    then place_sprite w args
    else if str_eq name (codes "placement_up")
    then placement_move up w args
    else if str_eq name (codes "placement_down")
    then placement_move down w args
    else if str_eq name (codes "placement_top")
    then placement_move top w args
    else if str_eq name (codes "placement_bottom")
    then placement_move bottom w args
    else if str_eq name (codes "destroy_placement")
    then destroy_placement w args
    else if str_eq name (codes "set_animation_params")
    then set_animation_params w args
    else if str_eq name (codes "share_canvas")
    then share_canvas env w args
    else if str_eq name (codes "barrier")
    then barrier w args
    else if str_eq name (codes "generate")
    then handle_generate w args
    else answered (response_code rpc_fail) w

unfoldable pub command : Environment → World → Bytes → List Bytes → Outcome
command env w name args =
    if str_eq name (codes "Login")
    then login env.time w args
    else if str_eq name (codes "Disconnect")
    then answered (b'0' ∷ newline ∷ []) (rpc_client_disconnected env.time w)
    else if not w.client.logged_in
    then answered (response_code rpc_value) w
    else session_command env w name args

unfoldable pub rpc_handle_request : Environment → World → Bytes → Outcome
rpc_handle_request env w line =
    if not env.line_ok then answered (response_code rpc_internal) w else elim (tokenize line) [
      | none ↦ answered (response_code rpc_fail) w
      | some [] ↦ answered (response_code rpc_fail) w
      | some (name ∷ args) ↦ command env w name args
    ]

-- What a request does when its wait on the barrier of record `id` is over.
unfoldable pub proceed : Environment → World → ℕ → Next → Outcome
proceed env w id (to_place sprite_id x y) = place_now env w id sprite_id x y
proceed env w id (to_move move placement_id) = move_now w move placement_id
proceed env w id (to_set placement_id vx vy ax ay) = set_now w placement_id vx vy ax ay
proceed env w id to_pass = answered (response_code (pos 0)) w
proceed env w id (to_generate base start end frame_rate) =
    generate_now env w id base start end frame_rate

unfoldable pub find_record : ℕ → List CanvasRecord → Option CanvasRecord
find_record id [] = none
find_record id (r ∷ rs) = if r.id == id then some r else find_record id rs

-- A turn of the wait: the test of the loop, then the next wait or the rest of the request.
unfoldable pub resume : Environment → World → ℕ → Bytes → Next → Outcome
resume env w id name next = elim (find_record id w.handles.canvases) [
  | none ↦ proceed env w id next
  | some c ↦ elim (wait_turn c name) [
    | waiting ↦ paused id name next w
    | returned rc ↦ proceed env w id next
  ]
]
