-- ===== src/Rpc/Tests.antt =====
-- Requests at concrete inputs.
use comp_p.Common.{◌≡◌, refl, true, false, [], ◌∷◌, ◌++◌, some, Bytes, codes, str_eq, arith}
use comp_p.CString.{is_alnum, is_digit, is_delim}
use comp_p.CString.Number.{pos}
use comp_p.CString.Decimal.{show_ℤ}
use comp_p.Auth.{auth_valid_username, all_alnum, auth_lookup, find_user}
use comp_p.Handles.{HandleStore}
use comp_p.Handles.RecordValidity.{IsValid}
use comp_p.ServerCommon.{zero_client}
use comp_p.Rpc.Ffmpeg.{exited}
use comp_p.Rpc.{Environment, World, answered, to_pass, with_client}
use comp_p.Rpc.Text.{newline, tokenize}
use comp_p.Rpc.Tokens.{line_of, tokenize-line_of}
use comp_p.Rpc.Request.{is_positive, rpc_handle_request, resume}
use comp_p.Rpc.Login.{login_lem}
use comp_p.Rpc.Kept.{IsReply}
use comp_p.Rpc.Replies.{rpc_handle_request-IsReply, resume-IsReply}

abbrev ann : Bytes
ann = codes "ann"

abbrev calm : Environment
calm = record {
  animate_create_canvas = λ h w c. 70;
  animate_create_sprite = λ file. 80;
  animate_create_rectangle = λ w h c f. 81;
  animate_create_circle = λ r c f. 82;
  animate_place_sprite = λ c s x y. 90;
  animate_destroy_sprite = λ s. false;
  line_ok = true;
  record_ok = true;
  user_ok = true;
  time = 1000;
  buffers_ok = true;
  dat_opens = true;
  frame_writes = λ n. true;
  dat_closes = true;
  log_opens = true;
  fork_ok = true;
  waits = exited 0 ∷ [];
  others = λ n s. s;
}

abbrev empty_store : HandleStore
empty_store = record { next_id = 1; canvases = []; sprites = []; placements = [] }

abbrev start : World
start = record {
  auth = some (record { users = record { username = ann; balance = pos 50 } ∷ [] });
  handles = empty_store;
  client = zero_client;
  log = [];
}

start-IsValid : IsValid empty_store
start-IsValid = record { positive = omega arith; canvases = tt; sprites = tt; placements = tt }

login_lem_example :
    rpc_handle_request calm start (line_of (codes "Login") (ann ∷ []))
    ≡ answered (show_ℤ (pos 50) ++ (newline ∷ [])) (
        with_client
          (record zero_client { username = ann; balance = pos 50; logged_in = true })
          start)
login_lem_example =
    login_lem calm start ann (pos 50) refl
      (unfold auth_valid_username all_alnum is_alnum is_digit in refl)
      (unfold auth_lookup find_user str_eq in refl) (unfold is_positive in refl)

abbrev session : World
session = record start {
  client = record zero_client { username = ann; balance = pos 50; logged_in = true };
}

rpc_handle_request-IsReply_example :
    IsReply (rpc_handle_request calm session (codes "create_canvas 3 4 0"))
rpc_handle_request-IsReply_example =
    rpc_handle_request-IsReply calm session (codes "create_canvas 3 4 0") (omega arith)
      start-IsValid

resume-IsReply_example : IsReply (resume calm start 1 ann to_pass)
resume-IsReply_example =
    resume-IsReply calm start 1 ann to_pass (omega arith) (λ n s v. v) start-IsValid

tokenize-line_of_example :
    tokenize (line_of (codes "Login") (ann ∷ [])) ≡ some (codes "Login" ∷ ann ∷ [])
tokenize-line_of_example =
    tokenize-line_of (codes "Login") (ann ∷ []) (omega arith)
      (unfold is_delim in ground arith, (unfold is_delim in ground arith, tt))
