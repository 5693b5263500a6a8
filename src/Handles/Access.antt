-- ===== src/Handles/Access.antt =====
-- Who gets what from the store: owners and sharers, fresh handles, and handles after destruction.
use comp_p.Common.{ℕ, ◌≡◌, ◌≢◌, Bool, true, false, [], ◌∷◌, some, Bytes, arith, str_eq_refl}
use comp_p.Handles.{SharedUser, CanvasRecord, HandleStore, null, invalid_handle}
use comp_p.Handles.Users.{find_shared_user, update_shared_user, copy_username, connect}
use comp_p.Handles.Store.{get_canvas_in, handles_add_canvas, handles_get_canvas}

-- What handles_get_canvas grants: the canvas with that id, alive and shared with the caller.
pub record IsGranted (id : ℕ) (name : Bytes) (before after : CanvasRecord) : Type 0 where
  pub same_id : before.id ≡ id
  pub alive : before.canvas ≢ null
  pub undeleted : before.deleted ≡ false
  pub sharer : SharedUser
  pub shares : find_shared_user name before.users ≡ some sharer
  pub marked : after ≡ record before { users = update_shared_user name connect before.users }

-- A handle that handles_add_canvas returns opens the new canvas for its owner, whose name has at
-- most 32 bytes.
pub get-add_canvas :
    (s s' : HandleStore) (rec_ok user_ok : Bool) (p w h id : ℕ) (owner : Bytes)
    → copy_username owner ≡ owner
    → handles_add_canvas rec_ok user_ok s p w h owner ≡ (id, s')
    → id ≢ invalid_handle
    → handles_get_canvas s' id owner
      ≡ some (
        record {
          id = id;
          canvas = p;
          width = w;
          height = h;
          deleted = false;
          users = record { username = owner; connected = true; barrier_waiting = false } ∷ [];
        },
        s',
      )
unfolding handles_add_canvas handles_get_canvas get_canvas_in find_shared_user update_shared_user
get-add_canvas s s' rec_ok user_ok p w h id owner short e nonzero =
    ground (arith, short, str_eq_refl owner)
