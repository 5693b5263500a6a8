-- ===== src/Handles/UserLaws.antt =====
-- Laws of the user list of a canvas.
use comp_p.Common.{
  ◌≡◌, ◌↔◌, refl, true, false, List, [], ◌∷◌, none, some, Bytes, str_eq, str_eq_iff, All, arith,
}
use comp_p.Handles.{SharedUser}
use comp_p.Handles.Users.{
  find_shared_user, update_shared_user, has_connected_user, barrier_complete, connect, leave,
  arrive,
}
use comp_p.Handles.Barrier.{release_all}

pub connected_iff :
    (us : List SharedUser) → (has_connected_user us ≡ false) ↔ All (λ u. u.connected ≡ false) us
unfolding has_connected_user
connected_iff [] = (λ h. tt, λ h. refl)
connected_iff (u ∷ us) =
    let (there, back) = connected_iff us in
    (λ h. (ground arith, there (ground arith)), λ h. ground (arith, back h.1))

-- What canvas_barrier_complete is to decide.
abbrev pub HasArrived : SharedUser → Type 0
HasArrived u = u.connected ≡ true → u.barrier_waiting ≡ true

pub complete_iff : (us : List SharedUser) → (barrier_complete us ≡ true) ↔ All HasArrived us
unfolding barrier_complete
complete_iff [] = (λ h. tt, λ h. refl)
complete_iff (u ∷ us) =
    let (there, back) = complete_iff us in
    (λ h. ((λ c. ground arith), there (ground arith)), λ h. ground (arith, back h.1, h.0))

module _ (name : Bytes) (f : SharedUser → SharedUser) where
  pub find-update :
      (us : List SharedUser) (u : SharedUser)
      → (f u).username ≡ u.username
      → find_shared_user name us ≡ some u
      → find_shared_user name (update_shared_user name f us) ≡ some (f u)
  unfolding find_shared_user update_shared_user
  find-update [] u k e = cc
  find-update (v ∷ us) u k e = ground (arith, find-update us u k)

  pub update-missing :
      (us : List SharedUser) → find_shared_user name us ≡ none → update_shared_user name f us ≡ us
  unfolding find_shared_user update_shared_user
  update-missing [] e = refl
  update-missing (v ∷ us) e = ground (arith, update-missing us)

  -- The other users are found as before.
  pub find-update_other :
      (other : Bytes) (us : List SharedUser)
      → ((u : SharedUser) → (f u).username ≡ u.username)
      → str_eq name other ≡ false
      → find_shared_user other (update_shared_user name f us) ≡ find_shared_user other us
  unfolding find_shared_user update_shared_user
  find-update_other other [] k ne = refl
  find-update_other other (v ∷ us) k ne = ground (
    arith,
    k v,
    str_eq_iff name other,
    str_eq_iff v.username name,
    str_eq_iff v.username other,
    find-update_other other us k ne,
  )

pub find-name :
    (name : Bytes) (us : List SharedUser) (u : SharedUser)
    → find_shared_user name us ≡ some u
    → u.username ≡ name
unfolding find_shared_user
find-name name [] u e = cc
find-name name (v ∷ us) u e = ground (arith, find-name name us u, str_eq_iff v.username name)

-- A user of the canvas who is marked as connected keeps it from being empty.
pub connect-connected :
    (name : Bytes) (us : List SharedUser) (u : SharedUser)
    → find_shared_user name us ≡ some u
    → has_connected_user (update_shared_user name connect us) ≡ true
unfolding find_shared_user update_shared_user has_connected_user
connect-connected name [] u e = cc
connect-connected name (v ∷ us) u e = ground (arith, connect-connected name us u)

pub leave-connected :
    (name : Bytes) (us : List SharedUser)
    → has_connected_user us ≡ false
    → has_connected_user (update_shared_user name leave us) ≡ false
unfolding update_shared_user has_connected_user
leave-connected name [] e = refl
leave-connected name (v ∷ us) e = ground (arith, leave-connected name us)

pub arrive-connected :
    (name : Bytes) (us : List SharedUser)
    → has_connected_user (update_shared_user name arrive us) ≡ has_connected_user us
unfolding update_shared_user has_connected_user
arrive-connected name [] = refl
arrive-connected name (v ∷ us) = ground (arith, arrive-connected name us)

pub release-connected :
    (us : List SharedUser) → has_connected_user (release_all us) ≡ has_connected_user us
unfolding release_all has_connected_user
release-connected [] = refl
release-connected (v ∷ us) = ground (arith, release-connected us)
