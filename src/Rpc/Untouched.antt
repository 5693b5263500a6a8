-- ===== src/Rpc/Untouched.antt =====
-- rpc.c, what a request leaves of the part of the client that the thread pool works on: its numbers
-- and its pending responses.
use comp_p.Common.{
  ℕ, zero, suc, ◌-◌, ◌≡◌, refl, ap, ◌∙◌, Bool, true, false, not, List, [], ◌∷◌, Option, none, some,
  if◌then◌else◌, Bytes, str_eq, ◌⊎◌, inl, inr, codes, arith, Option-cases, Bool-cases,
}
use comp_p.ServerCommon.{ClientState}
use comp_p.CString.Number.{ℤ}
use comp_p.Handles.{CanvasRecord}
use comp_p.Handles.Store.{handles_get_canvas}
use comp_p.Handles.Barrier.{Progress, returned, waiting, wait_turn}
use comp_p.Rpc.{
  Environment, World, Move, up, down, top, bottom, Next, to_place, to_move, to_set, to_pass,
  to_generate, Outcome, answered, paused,
}
use comp_p.Rpc.Text.{rpc_fail, rpc_value, newline, response_code, tokenize}
use comp_p.Rpc.Create.{destroy_placement}
use comp_p.Rpc.Share.{share_canvas, barrier}
use comp_p.Rpc.Place.{place_sprite, placement_move, set_animation_params, place_now}
use comp_p.Rpc.Generate.{handle_generate, generate_frames, make_movie, generate_now}
use comp_p.Rpc.Request.{
  is_positive, log_in, leave_soon, login_reply, login, rpc_client_disconnected, session_command,
  command, rpc_handle_request, proceed, find_record, resume,
}
use comp_p.Rpc.Aside.{
  client_of, create_canvas-client, create_sprite-client, create_rectangle-client,
  create_circle-client, destroy_canvas-client, destroy_sprite-client, place_sprite-client,
  placement_move-client, destroy_placement-client, set_animation_params-client, share_canvas-client,
  barrier-client, handle_generate-client, move_now-client, set_now-client,
}

-- The same numbers, the same pending responses and the same mark.
pub record SameReplies (c c' : ClientState) : Type 0 where
  pub received : c'.requests_received ≡ c.requests_received
  pub sent : c'.responses_sent ≡ c.responses_sent
  pub pending : c'.pending_responses ≡ c.pending_responses
  pub mark : c'.disconnected ≡ c.disconnected
  pub pid : c'.client_pid ≡ c.client_pid

pub SameReplies-of_eq : (c c' : ClientState) → c' ≡ c → SameReplies c c'
SameReplies-of_eq c c' e = record {
  received = ap (λ (x : ClientState). x.requests_received) e;
  sent = ap (λ (x : ClientState). x.responses_sent) e;
  pending = ap (λ (x : ClientState). x.pending_responses) e;
  mark = ap (λ (x : ClientState). x.disconnected) e;
  pid = ap (λ (x : ClientState). x.client_pid) e;
}

module _ (env : Environment) where
  place_now-client :
      (w : World) (canvas_id sprite_id : ℕ) (x y : ℤ)
      → client_of (place_now env w canvas_id sprite_id x y) ≡ w.client
  unfolding place_now client_of
  place_now-client w canvas_id sprite_id x y = ground arith

  -- The world in the result of the loop.
  frames_world : (Bytes × World) ⊎ (Option CanvasRecord × World) → World
  frames_world (inl (response, w)) = w
  frames_world (inr (last, w)) = w

  generate_frames-client :
      (canvas_id frame_rate frame count : ℕ) (last : Option CanvasRecord) (w : World)
      → (frames_world (generate_frames env canvas_id frame_rate frame count last w)).client
        ≡ w.client
  unfolding generate_frames frames_world
  generate_frames-client canvas_id frame_rate frame zero last w = refl
  generate_frames-client canvas_id frame_rate frame (suc count) last w =
      elim (Option-cases
        (handles_get_canvas (env.others frame w.handles) canvas_id w.client.username)) [
          | inl gone ↦ rw (gone, generate_frames) refl
          | inr ((c, s), here) ↦ elim (Bool-cases (env.frame_writes frame)) [
            | inl written ↦
                rw (here, written, generate_frames)
                  (generate_frames-client canvas_id frame_rate (suc frame) count (some c) _)
            | inr bad ↦ rw (here, bad, generate_frames) refl
          ]
        ]

  make_movie-client :
      (base : Bytes) (frame_rate : ℕ) (r : (Bytes × World) ⊎ (Option CanvasRecord × World))
      → client_of (make_movie env base frame_rate r) ≡ (frames_world r).client
  unfolding make_movie frames_world client_of
  make_movie-client base frame_rate (inl (response, w)) = refl
  make_movie-client base frame_rate (inr (last, w)) = ground arith

  generate_now-client :
      (w : World) (canvas_id : ℕ) (base : Bytes) (start end frame_rate : ℕ)
      → client_of (generate_now env w canvas_id base start end frame_rate) ≡ w.client
  unfolding generate_now client_of
  generate_now-client w canvas_id base start end frame_rate =
      let r = generate_frames env canvas_id frame_rate start (suc end - start) none w in
      let same =
        make_movie-client base frame_rate r
        ∙ generate_frames-client canvas_id frame_rate start (suc end - start) none w in
      ground (arith, same)

  proceed-client : (w : World) (id : ℕ) (next : Next) → client_of (proceed env w id next) ≡ w.client
  unfolding proceed
  proceed-client w id (to_place sprite_id x y) = place_now-client w id sprite_id x y
  proceed-client w id (to_move move placement_id) = move_now-client env w move placement_id
  proceed-client w id (to_set placement_id vx vy ax ay) =
      set_now-client env w placement_id vx vy ax ay
  proceed-client w id to_pass = unfold client_of in refl
  proceed-client w id (to_generate base start end frame_rate) =
      generate_now-client w id base start end frame_rate

  pub resume-client :
      (w : World) (id : ℕ) (name : Bytes) (next : Next)
      → client_of (resume env w id name next) ≡ w.client
  unfolding resume
  resume-client w id name next = elim (Option-cases (find_record id w.handles.canvases)) [
    | inl gone ↦ rw (gone, resume) (proceed-client w id next)
    | inr (c, here) ↦ rw (here, resume) (turn (wait_turn c name))
  ]
    where
      turn :
          (p : Progress)
          → client_of
              (elim p [ waiting ↦ paused id name next w | returned rc ↦ proceed env w id next ])
            ≡ w.client
      turn waiting = unfold client_of in refl
      turn (returned rc) = proceed-client w id next

pub left-SameReplies :
    (now : ℕ) (w : World) → SameReplies w.client (rpc_client_disconnected now w).client
unfolding rpc_client_disconnected leave_soon
left-SameReplies now w = ground arith

module _ (env : Environment) (w : World) where
  either-client :
      (b : Bool) (x y : Outcome)
      → client_of x ≡ w.client
      → client_of y ≡ w.client
      → client_of (if b then x else y) ≡ w.client
  either-client true x y hx hy = hx
  either-client false x y hx hy = hy

  session_command-client :
      (name : Bytes) (args : List Bytes) → client_of (session_command env w name args) ≡ w.client
  unfolding session_command
  session_command-client name args = either-client _ _ _ (create_canvas-client env w args) (
      either-client _ _ _ (create_sprite-client env w args) (
        either-client _ _ _ (create_rectangle-client env w args) (
          either-client _ _ _ (create_circle-client env w args) (
            either-client _ _ _ (destroy_canvas-client env w args)
              (either-client _ _ _ (destroy_sprite-client env w args) rest)))))
    where
      moves : (move : Move) → client_of (placement_move move w args) ≡ w.client
      moves move = placement_move-client env w move args

      unknown : client_of (answered (response_code rpc_fail) w) ≡ w.client
      unknown = unfold client_of in refl

      last :
          client_of (
            if str_eq name (codes "set_animation_params")
            then set_animation_params w args
            else if str_eq name (codes "share_canvas")
            then share_canvas env w args
            else if str_eq name (codes "barrier")
            then barrier w args
            else if str_eq name (codes "generate")
            then handle_generate w args
            else answered (response_code rpc_fail) w)
          ≡ w.client
      last = either-client _ _ _ (set_animation_params-client env w args) (
          either-client _ _ _ (share_canvas-client env w args) (
            either-client _ _ _ (barrier-client env w args)
              (either-client _ _ _ (handle_generate-client env w args) unknown)))

      rest :
          client_of (
            if str_eq name (codes "place_sprite")
            then place_sprite w args
            else if str_eq name (codes "placement_up")
            then placement_move up w args
            else if str_eq name (codes "placement_down")
            then placement_move down w args
            else if str_eq name (codes "placement_top")
            then placement_move top w args
            else if str_eq name (codes "placement_bottom")
            then placement_move bottom w args
            else if str_eq name (codes "destroy_placement")
            then destroy_placement w args
            else if str_eq name (codes "set_animation_params")
            then set_animation_params w args
            else if str_eq name (codes "share_canvas")
            then share_canvas env w args
            else if str_eq name (codes "barrier")
            then barrier w args
            else if str_eq name (codes "generate")
            then handle_generate w args
            else answered (response_code rpc_fail) w)
          ≡ w.client
      rest = either-client _ _ _ (place_sprite-client env w args) (
          either-client _ _ _ (moves up) (
            either-client _ _ _ (moves down) (
              either-client _ _ _ (moves top) (
                either-client _ _ _ (moves bottom)
                  (either-client _ _ _ (destroy_placement-client env w args) last)))))

  IsAside : Outcome → Type 0
  IsAside o = SameReplies w.client (client_of o)

  either-IsAside : (b : Bool) (x y : Outcome) → IsAside x → IsAside y → IsAside (if b then x else y)
  either-IsAside true x y hx hy = hx
  either-IsAside false x y hx hy = hy

  answered-IsAside : (text : Bytes) → IsAside (answered text w)
  unfolding IsAside client_of
  answered-IsAside text = SameReplies-of_eq w.client w.client refl

  login_reply-IsAside :
      (name : Bytes) (balance : Option ℤ) → IsAside (login_reply env.time w name balance)
  unfolding login_reply IsAside client_of leave_soon log_in
  login_reply-IsAside name none = ground arith
  login_reply-IsAside name (some balance) =
      either-IsAside (not (is_positive balance)) _ _ (ground arith) (ground arith)

  login-IsAside : (args : List Bytes) → IsAside (login env.time w args)
  unfolding login
  login-IsAside [] = answered-IsAside _
  login-IsAside (name ∷ []) = either-IsAside _ _ _ (answered-IsAside _) (login_reply-IsAside name _)
  login-IsAside (name ∷ more ∷ args) = answered-IsAside _

  disconnected-IsAside :
      (text : Bytes) → IsAside (answered text (rpc_client_disconnected env.time w))
  unfolding IsAside client_of
  disconnected-IsAside text = left-SameReplies env.time w

  command-IsAside : (name : Bytes) (args : List Bytes) → IsAside (command env w name args)
  unfolding command
  command-IsAside name args = either-IsAside _ _ _ (login-IsAside args) (
      either-IsAside (str_eq name (codes "Disconnect")) _ _
        (disconnected-IsAside (b'0' ∷ newline ∷ []))
        (either-IsAside (not w.client.logged_in) _ _ (answered-IsAside (response_code rpc_value))
          session))
    where
      session : IsAside (session_command env w name args)
      session = unfold IsAside in SameReplies-of_eq _ _ (session_command-client name args)

  -- A request leaves the client's numbers, its pending responses and its mark alone.
  pub rpc_handle_request-SameReplies :
      (line : Bytes) → SameReplies w.client (client_of (rpc_handle_request env w line))
  unfolding rpc_handle_request IsAside
  rpc_handle_request-SameReplies line =
      either-IsAside (not env.line_ok) _ _ (answered-IsAside _) (tokens (tokenize line))
    where
      tokens :
          (t : Option (List Bytes))
          → IsAside (elim t [
            | none ↦ answered (response_code rpc_fail) w
            | some [] ↦ answered (response_code rpc_fail) w
            | some (name ∷ args) ↦ command env w name args
          ])
      tokens none = answered-IsAside _
      tokens (some []) = answered-IsAside _
      tokens (some (name ∷ args)) = command-IsAside name args
