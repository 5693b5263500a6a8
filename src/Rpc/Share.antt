-- ===== src/Rpc/Share.antt =====
-- The requests share_canvas and barrier.
use comp_p.Common.{ℕ, ◌&&◌, List, [], ◌∷◌, Option, none, some, Bytes, ◌>>=◌, some_if}
use comp_p.Auth.{auth_valid_username, auth_user_exists}
use comp_p.Handles.{HandleStore, CanvasRecord}
use comp_p.Handles.Store.{handles_get_canvas, put_canvas}
use comp_p.Handles.Barrier.{Progress, returned, waiting, canvas_record_barrier, canvas_record_share}
use comp_p.Rpc.{Environment, World, to_pass, Outcome, answered, paused, with_handles}
use comp_p.Rpc.Text.{rpc_value, rpc_internal, response_code, parse_u64}
use comp_p.Rpc.Create.{code_of, one_handle, logged}

unfoldable pub share_arguments : World → List Bytes → Option (ℕ × Bytes)
share_arguments w (c ∷ name ∷ []) = do
  let canvas_id = (← parse_u64 c)
  some_if (auth_valid_username (some name) && auth_user_exists w.auth (some name)) (canvas_id, name)
share_arguments w _ = none

unfoldable pub put_record : CanvasRecord → HandleStore → HandleStore
put_record c s = record s { canvases = put_canvas c s.canvases }

unfoldable pub share_on :
    Environment → World → Bytes → Option (CanvasRecord × HandleStore) → Outcome
share_on env w name none = answered (response_code rpc_value) w
share_on env w name (some (c, s)) =
    let (rc, c') = canvas_record_share env.user_ok c name in
    answered (response_code (code_of rpc_internal rc)) (with_handles (put_record c' s) w)

unfoldable pub share_canvas : Environment → World → List Bytes → Outcome
share_canvas env w args = elim (share_arguments w args) [
  | none ↦ answered (response_code rpc_value) w
  | some (canvas_id, name) ↦
      share_on env w name (handles_get_canvas w.handles canvas_id w.client.username)
]

-- canvas_record_barrier has returned, or the request waits in it.
unfoldable pub barrier_outcome : World → ℕ → Progress → Outcome
barrier_outcome w id (returned rc) = answered (response_code (code_of rpc_internal rc)) w
barrier_outcome w id waiting = paused id w.client.username to_pass w

unfoldable pub barrier_on : World → Option (CanvasRecord × HandleStore) → Outcome
barrier_on w none = answered (response_code rpc_value) w
barrier_on w (some (c, s)) =
    let (progress, c', effects) = canvas_record_barrier c w.client.username in
    barrier_outcome (logged effects (with_handles (put_record c' s) w)) c.id progress

unfoldable pub barrier : World → List Bytes → Outcome
barrier w args = elim (one_handle args) [
  | none ↦ answered (response_code rpc_value) w
  | some canvas_id ↦ barrier_on w (handles_get_canvas w.handles canvas_id w.client.username)
]
