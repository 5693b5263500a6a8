-- ===== src/Rpc/Guard.antt =====
-- rpc.c, the requests of a client that is not logged in.
use comp_p.Common.{◌≡◌, true, some, Bytes}
use comp_p.CString.{strncpy}
use comp_p.Auth.{auth_valid_username, auth_lookup}
use comp_p.Handles.{max_username_len}
use comp_p.ServerCommon.{ClientState}
use comp_p.Rpc.{World, Outcome, answered, paused}
use comp_p.Rpc.Request.{is_positive}

-- How the client may be after the request: as logged out as before, or logged in under a valid name
-- to which the database gives a positive balance, which the client then has.
pub record IsAdmitted (w : World) (c : ClientState) : Type 0 where
  pub name : Bytes
  pub valid : auth_valid_username (some name) ≡ true
  pub found : auth_lookup w.auth (some name) ≡ some c.balance
  pub positive : is_positive c.balance ≡ true
  pub recorded : c.username ≡ strncpy max_username_len name

-- The request has its response, has not touched the store or called the animate library, and has
-- logged the client in only if it may be.
unfoldable pub IsOutside : World → Outcome → Type 0
IsOutside w (answered text w') =
    (w'.handles ≡ w.handles)
    × (w'.log ≡ w.log)
    × (w'.client.logged_in ≡ true → IsAdmitted w w'.client)
IsOutside w (paused id name next w') = ⊥
