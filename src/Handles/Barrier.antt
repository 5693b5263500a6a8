-- ===== src/Handles/Barrier.antt =====
-- The barrier of a canvas: what a caller does before and after each wait on the condition variable.
use comp_p.Common.{Bool, false, List, [], ◌∷◌, none, some, if◌then◌else◌, Bytes, not}
use comp_p.CString.Number.{ℤ, pos, negsuc}
use comp_p.Handles.{SharedUser, CanvasRecord, Effect, broadcast}
use comp_p.Handles.Users.{
  copy_username, find_shared_user, update_shared_user, arrive, canvas_barrier_complete,
}

-- Where canvas_record_barrier stands: it has returned, or it waits for its user to be released.
pub data Progress : Type 0 where
  returned : ℤ → Progress
  waiting : Progress

abbrev pub release_user : SharedUser → SharedUser
release_user u = record u { barrier_waiting = false }

unfoldable pub release_all : List SharedUser → List SharedUser
release_all [] = []
release_all (u ∷ us) = release_user u ∷ release_all us

-- The user's flag is set; if that completes the barrier, then all flags are cleared.
unfoldable pub arrive_at : Bytes → CanvasRecord → Progress × CanvasRecord × List Effect
unfolding canvas_barrier_complete release_all
arrive_at name c =
    let c' : CanvasRecord = record c { users = update_shared_user name arrive c.users } in
    if canvas_barrier_complete c'
    then (returned (pos 0), record c' { users = release_all c'.users }, broadcast c.id ∷ [])
    else (waiting, c', [])

-- canvas_record_barrier up to its first wait.
unfoldable pub canvas_record_barrier : CanvasRecord → Bytes → Progress × CanvasRecord × List Effect
unfolding arrive_at
canvas_record_barrier c name = elim (find_shared_user name c.users) [
  | none ↦ (returned (negsuc 0), c, [])
  | some u ↦ arrive_at name c
]

unfoldable pub canvas_record_has_waiting_barrier : CanvasRecord → Bytes → Bool
canvas_record_has_waiting_barrier c name = elim (find_shared_user name c.users) [
  | none ↦ false
  | some u ↦ u.barrier_waiting
]

-- One turn of the loops of canvas_record_barrier and canvas_record_wait_for_barrier: the caller goes
-- on, or waits for the next broadcast.
unfoldable pub wait_turn : CanvasRecord → Bytes → Progress
unfolding canvas_record_has_waiting_barrier
wait_turn c name = if canvas_record_has_waiting_barrier c name then waiting else returned (pos 0)

-- The argument says whether calloc succeeds.
unfoldable pub canvas_record_share : Bool → CanvasRecord → Bytes → ℤ × CanvasRecord
canvas_record_share user_ok c name = elim (find_shared_user name c.users) [
  | some u ↦ (pos 0, c)
  | none ↦ if not user_ok then (negsuc 0, c) else (
    pos 0,
    record c {
      users =
          record { username = copy_username name; connected = false; barrier_waiting = false }
          ∷ c.users;
    },
  )
]
