-- ===== src/Handles/BarrierLaws.antt =====
-- handles.c, the release of the users that wait at a barrier.
use comp_p.Common.{
  ◌≡◌, ◌≢◌, ◌⊎◌, refl, ◌∙◌, false, List, [], ◌∷◌, some, Bytes, Option-cases, Bool-cases, inl, inr,
  arith, str_eq, str_eq_iff, All,
}
use comp_p.CString.Number.{pos}
use comp_p.Handles.{SharedUser, CanvasRecord, broadcast}
use comp_p.Handles.Users.{
  find_shared_user, update_shared_user, arrive, leave, barrier_complete, maybe_destroy_canvas,
}
use comp_p.Handles.UserLaws.{
  complete_iff, HasArrived, find-update, find-update_other, update-missing,
}
use comp_p.Handles.Store.{leave_canvas, disconnect_canvas}
use comp_p.Handles.Barrier.{returned, waiting, release_all, canvas_record_barrier, wait_turn}

-- The users of the canvas with the caller's flag set.
abbrev pub arrived : Bytes → CanvasRecord → List SharedUser
arrived name c = update_shared_user name arrive c.users

find-release :
    (name : Bytes) (us : List SharedUser) (u : SharedUser)
    → find_shared_user name (release_all us) ≡ some u
    → u.barrier_waiting ≡ false
unfolding find_shared_user release_all
find-release name [] u e = cc
find-release name (v ∷ us) u e = ground (arith, find-release name us u)

release_all-free :
    (name : Bytes) (c : CanvasRecord) (us : List SharedUser)
    → wait_turn (record c { users = release_all us }) name ≡ returned (pos 0)
unfolding wait_turn
release_all-free name c us = elim (Option-cases (find_shared_user name (release_all us))) [
  | inl miss ↦ ground (arith, miss)
  | inr (u, hit) ↦ ground (arith, hit, find-release name us u)
]

set-waits :
    (c : CanvasRecord) (name : Bytes) (us : List SharedUser) (u : SharedUser)
    → find_shared_user name us ≡ some u
    → wait_turn (record c { users = update_shared_user name arrive us }) name ≡ waiting
unfolding wait_turn
set-waits c name us u e = ground (arith, find-update name arrive us u refl e)

-- For a caller who shares the canvas, one of two things happens. If, with the caller counted, every
-- connected user has arrived, then the call returns 0, wakes the waiters, and no user waits any
-- longer. If some connected user has not arrived, the caller waits and only its own flag is set.
pub barrier_lem :
    (c : CanvasRecord) (name : Bytes) (u : SharedUser)
    → find_shared_user name c.users ≡ some u
    → (All HasArrived (arrived name c)
        × (canvas_record_barrier c name ≡ (
          returned (pos 0),
          record c { users = release_all (arrived name c) },
          broadcast c.id ∷ [],
        ))
        × ((other : Bytes) → wait_turn (canvas_record_barrier c name).1 other ≡ returned (pos 0)))
      ⊎ ((¬ All HasArrived (arrived name c))
          × (canvas_record_barrier c name ≡ (waiting, record c { users = arrived name c }, []))
          × (wait_turn (canvas_record_barrier c name).1 name ≡ waiting))
unfolding canvas_record_barrier
barrier_lem c name u e = elim (Bool-cases (barrier_complete (arrived name c))) [
  | inl all ↦ inl (
    (complete_iff (arrived name c)).0 all,
    ground (arith, e, all),
    λ other. rw (e, canvas_record_barrier, all) (release_all-free other c (arrived name c)),
  )
  | inr missing ↦ inr (
    (λ h. cc (missing, (complete_iff (arrived name c)).1 h)),
    ground (arith, e, missing),
    rw (e, canvas_record_barrier, missing) (set-waits c name c.users u e),
  )
]

other-waits :
    (c : CanvasRecord) (name other : Bytes)
    → str_eq other name ≡ false
    → wait_turn c name ≡ waiting
    → wait_turn (record c { users = update_shared_user other leave c.users }) name ≡ waiting
unfolding wait_turn
other-waits c name other ne w =
    ground (arith, w, find-update_other other leave name c.users (λ u. refl) ne)

users-maybe_destroy : (c : CanvasRecord) → (maybe_destroy_canvas c).0.users ≡ c.users
unfolding maybe_destroy_canvas
users-maybe_destroy c = ground arith

-- Only the flags of the users decide who waits.
wait_turn-users :
    (c d : CanvasRecord) (name : Bytes) → c.users ≡ d.users → wait_turn c name ≡ wait_turn d name
unfolding wait_turn
wait_turn-users c d name e = rw e

users-leave_canvas :
    (name : Bytes) (c : CanvasRecord)
    → (leave_canvas name c).0.users ≡ update_shared_user name leave c.users
unfolding leave_canvas
users-leave_canvas name c = ground arith

users-disconnect_canvas :
    (name : Bytes) (c : CanvasRecord)
    → (disconnect_canvas name c).0.users ≡ update_shared_user name leave c.users
unfolding disconnect_canvas
users-disconnect_canvas name c = ground (arith, update-missing name leave c.users)

ne-str_eq : (a b : Bytes) → a ≢ b → str_eq a b ≡ false
ne-str_eq a b ne = ground (arith, str_eq_iff a b)

-- A user who waits at the barrier of a canvas waits on after any other user disconnects or destroys
-- the canvas for itself, also if by that every user who is still connected has arrived: neither path
-- completes the barrier.
pub leave_keeps_waiting :
    (c : CanvasRecord) (name other : Bytes)
    → other ≢ name
    → wait_turn c name ≡ waiting
    → (wait_turn (disconnect_canvas other c).0 name ≡ waiting)
      × (wait_turn (leave_canvas other c).0 name ≡ waiting)
leave_keeps_waiting c name other ne w =
    let left : CanvasRecord = record c { users = update_shared_user other leave c.users } in
    let still = other-waits c name other (ne-str_eq other name ne) w in
    (
      wait_turn-users (disconnect_canvas other c).0 left name (users-disconnect_canvas other c)
          ∙ still,
      wait_turn-users (leave_canvas other c).0 left name (users-leave_canvas other c) ∙ still,
    )
