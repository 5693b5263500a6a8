-- ===== src/Handles/Users.antt =====
-- The users that share a canvas.
use comp_p.Common.{
  Bool, true, false, not, ◌&&◌, List, [], ◌∷◌, Option, none, some, ◌==◌, if◌then◌else◌, Bytes,
  str_eq,
}
use comp_p.CString.{strncpy}
use comp_p.Handles.{SharedUser, CanvasRecord, Effect, canvas_destroyed, null, max_username_len}

unfoldable pub copy_username : Bytes → Bytes
copy_username src = strncpy max_username_len src

-- The search of find_shared_user through the users of a canvas.
unfoldable pub find_shared_user : Bytes → List SharedUser → Option SharedUser
find_shared_user name [] = none
find_shared_user name (u ∷ us) = if str_eq u.username name then some u else find_shared_user name us

-- A write through the pointer that find_shared_user returns; none if that is NULL.
unfoldable pub update_shared_user :
    Bytes → (SharedUser → SharedUser) → List SharedUser → List SharedUser
update_shared_user name f [] = []
update_shared_user name f (u ∷ us) =
    if str_eq u.username name then f u ∷ us else u ∷ update_shared_user name f us

abbrev pub connect : SharedUser → SharedUser
connect u = record u { connected = true }

abbrev pub leave : SharedUser → SharedUser
leave u = record u { connected = false; barrier_waiting = false }

abbrev pub arrive : SharedUser → SharedUser
arrive u = record u { barrier_waiting = true }

unfoldable pub has_connected_user : List SharedUser → Bool
has_connected_user [] = false
has_connected_user (u ∷ us) = if u.connected then true else has_connected_user us

unfoldable pub barrier_complete : List SharedUser → Bool
barrier_complete [] = true
barrier_complete (u ∷ us) =
    if u.connected && not u.barrier_waiting then false else barrier_complete us

unfoldable pub canvas_has_connected_user : CanvasRecord → Bool
canvas_has_connected_user c = has_connected_user c.users

unfoldable pub canvas_barrier_complete : CanvasRecord → Bool
canvas_barrier_complete c = barrier_complete c.users

unfoldable pub maybe_destroy_canvas : CanvasRecord → CanvasRecord × List Effect
unfolding canvas_has_connected_user
maybe_destroy_canvas c =
    if c.deleted && (not (c.canvas == null) && not (canvas_has_connected_user c))
    then (record c { canvas = null }, canvas_destroyed c.canvas ∷ [])
    else (c, [])
