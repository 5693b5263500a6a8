-- ===== src/Rpc/Replies.antt =====
-- rpc.c, responses and the handle store over whole requests.
use comp_p.Common.{
  ℕ, zero, suc, ◌+◌, ◌-◌, ◌<◌, refl, not, List, [], ◌∷◌, Option, none, some, Bytes, codes, str_eq,
  Bool-cases, Option-cases, ◌⊎◌, inl, inr, ◌==◌, arith,
}
use comp_p.CString.Number.{ℤ, pos}
use comp_p.Auth.{auth_valid_username, auth_lookup}
use comp_p.Handles.{HandleStore, CanvasRecord, u64_mod, null}
use comp_p.Handles.Store.{handles_get_canvas, handles_disconnect_user}
use comp_p.Handles.Barrier.{Progress, returned, waiting, wait_turn}
use comp_p.Handles.RecordValidity.{IsValid}
use comp_p.Handles.Validity.{get-IsCanvas-IsValid, add_placement-IsValid, perform-IsValid}
use comp_p.Handles.Run.{disconnect, perform}
use comp_p.Rpc.{
  Environment, up, down, top, bottom, World, Next, to_place, to_move, to_set, to_pass, to_generate,
  Outcome, answered, paused,
}
use comp_p.Rpc.Text.{rpc_value, rpc_fail, rpc_internal, newline, tokenize, response_generate}
use comp_p.Rpc.Place.{place_now, sprite_ptr, canvas_ptr}
use comp_p.Rpc.Generate.{generate_frames, make_movie, generate_now}
use comp_p.Rpc.Request.{
  is_positive, login_reply, login, rpc_client_disconnected, session_command, command,
  rpc_handle_request, proceed, find_record, resume,
}
use comp_p.Rpc.Lines.{response_i32-IsLine, response_generate-IsLine}
use comp_p.Rpc.Kept.{
  IsReply, code-IsReply, u64-IsReply, if-IsReply, create_canvas-IsReply, create_sprite-IsReply,
  create_rectangle-IsReply, create_circle-IsReply, destroy_canvas-IsReply, destroy_sprite-IsReply,
  destroy_placement-IsReply,
}
use comp_p.Rpc.Waits.{
  place_sprite-IsReply, placement_move-IsReply, set_animation_params-IsReply, share_canvas-IsReply,
  barrier-IsReply, handle_generate-IsReply, move_now-IsReply, set_now-IsReply,
}

generate-IsReply :
    (dat movie : ℤ) (w : World)
    → IsValid w.handles
    → IsReply (answered (response_generate dat movie) w)
unfolding IsReply
generate-IsReply dat movie w v = (response_generate-IsLine dat movie, v)

-- What other threads do between two frames keeps the store valid.
abbrev pub IsTame : Environment → Type 0
IsTame env = (n : ℕ) (s : HandleStore) → IsValid s → IsValid (env.others n s)

-- The loop over the frames ends with a response or with a canvas, and in both cases a valid store.
abbrev pub Ended : (Bytes × World) ⊎ (Option CanvasRecord × World) → Type 0
Ended (inl (text, w)) = IsReply (answered text w)
Ended (inr (last, w)) = IsValid w.handles

frames-Ended :
    (env : Environment) (id rate frame count : ℕ) (last : Option CanvasRecord) (w : World)
    → IsTame env
    → IsValid w.handles
    → Ended (generate_frames env id rate frame count last w)
unfolding generate_frames
frames-Ended env id rate frame zero last w tame v = v
frames-Ended env id rate frame (suc count) last w tame v =
    let other = env.others frame w.handles in
    let v' = tame frame w.handles v in
    elim (Option-cases (handles_get_canvas other id w.client.username)) [
      | inl miss ↦ rw (miss, generate_frames) (code-IsReply rpc_value _ v')
      | inr ((c, s), hit) ↦
          let (i, kept) = get-IsCanvas-IsValid other s id w.client.username c v' hit in
          elim (Bool-cases (env.frame_writes frame)) [
            | inr bad ↦ rw (hit, bad, generate_frames) (generate-IsReply _ _ _ kept)
            | inl fine ↦
                rw (hit, fine, generate_frames)
                  (frames-Ended env id rate (suc frame) count (some c) _ tame kept)
          ]
    ]

movie-IsReply :
    (env : Environment) (base : Bytes) (rate : ℕ)
    (end : (Bytes × World) ⊎ (Option CanvasRecord × World))
    → Ended end
    → IsReply (make_movie env base rate end)
unfolding make_movie
movie-IsReply env base rate (inl (text, w)) h = h
movie-IsReply env base rate (inr (last, w)) h =
    if-IsReply (not env.dat_closes) _ _ (generate-IsReply _ _ _ h)
      (if-IsReply _ _ _ (generate-IsReply _ _ _ h) (generate-IsReply _ _ _ h))

module _ (env : Environment) (w : World) (room : w.handles.next_id + 1 < u64_mod)
    (v : IsValid w.handles) where
  place_now-IsReply : (id sprite_id : ℕ) (x y : ℤ) → IsReply (place_now env w id sprite_id x y)
  unfolding place_now
  place_now-IsReply id sprite_id x y =
      let placement =
        env.animate_place_sprite (canvas_ptr id w.handles.canvases)
          (sprite_ptr sprite_id w.handles.sprites) x y in
      if-IsReply (placement == null) _ _ (code-IsReply rpc_internal _ v) (
        if-IsReply _ _ _ (code-IsReply rpc_internal _ v) (
          u64-IsReply _ _ (
            add_placement-IsValid w.handles env.record_ok placement id sprite_id w.client.username
              room v)))

  generate_now-IsReply :
      (id : ℕ) (base : Bytes) (start end rate : ℕ)
      → IsTame env
      → IsReply (generate_now env w id base start end rate)
  unfolding generate_now
  generate_now-IsReply id base start end rate tame =
      if-IsReply (not env.buffers_ok) _ _ (code-IsReply rpc_internal _ v) (
        if-IsReply (not env.dat_opens) _ _ (generate-IsReply _ _ _ v) (
          movie-IsReply env base rate (generate_frames env id rate start (suc end - start) none w)
            (frames-Ended env id rate start (suc end - start) none w tame v)))

  proceed-IsReply : (id : ℕ) (next : Next) → IsTame env → IsReply (proceed env w id next)
  unfolding proceed
  proceed-IsReply id (to_place sprite_id x y) tame = place_now-IsReply id sprite_id x y
  proceed-IsReply id (to_move move p) tame = move_now-IsReply w v move p
  proceed-IsReply id (to_set p vx vy ax ay) tame = set_now-IsReply w v p vx vy ax ay
  proceed-IsReply id to_pass tame = code-IsReply (pos 0) w v
  proceed-IsReply id (to_generate base start end rate) tame =
      generate_now-IsReply id base start end rate tame

  login_reply-IsReply : (name : Bytes) (o : Option ℤ) → IsReply (login_reply env.time w name o)
  unfolding login_reply IsReply
  login_reply-IsReply name none = ((codes "Reject UNAUTHORISED", refl, ground arith), v)
  login_reply-IsReply name (some balance) =
      if-IsReply (not (is_positive balance)) _ _ ((codes "Reject BALANCE", refl, ground arith), v)
        (response_i32-IsLine balance, v)

  login-IsReply : (args : List Bytes) → IsReply (login env.time w args)
  unfolding login
  login-IsReply [] = code-IsReply rpc_fail w v
  login-IsReply (name ∷ x ∷ rest) = code-IsReply rpc_fail w v
  login-IsReply (name ∷ []) =
      if-IsReply (not (auth_valid_username (some name))) _ _ (code-IsReply rpc_fail w v)
        (login_reply-IsReply name (auth_lookup w.auth (some name)))

  session_command-IsReply :
      (name : Bytes) (args : List Bytes) → IsReply (session_command env w name args)
  unfolding session_command
  session_command-IsReply name args =
      if-IsReply (str_eq name (codes "create_canvas")) _ _ (create_canvas-IsReply env w room v args)
        (if-IsReply (str_eq name (codes "create_sprite")) _ _
          (create_sprite-IsReply env w room v args)
          (if-IsReply (str_eq name (codes "create_rectangle")) _ _
            (create_rectangle-IsReply env w room v args)
            (if-IsReply (str_eq name (codes "create_circle")) _ _
              (create_circle-IsReply env w room v args)
              (if-IsReply (str_eq name (codes "destroy_canvas")) _ _
                (destroy_canvas-IsReply env w room v args)
                (if-IsReply (str_eq name (codes "destroy_sprite")) _ _
                  (destroy_sprite-IsReply env w room v args)
                  (if-IsReply (str_eq name (codes "place_sprite")) _ _
                    (place_sprite-IsReply w v args)
                    (if-IsReply (str_eq name (codes "placement_up")) _ _
                      (placement_move-IsReply w v up args)
                      (if-IsReply (str_eq name (codes "placement_down")) _ _
                        (placement_move-IsReply w v down args)
                        (if-IsReply (str_eq name (codes "placement_top")) _ _
                          (placement_move-IsReply w v top args)
                          (if-IsReply (str_eq name (codes "placement_bottom")) _ _
                            (placement_move-IsReply w v bottom args)
                            (if-IsReply (str_eq name (codes "destroy_placement")) _ _
                              (destroy_placement-IsReply env w room v args)
                              (if-IsReply (str_eq name (codes "set_animation_params")) _ _
                                (set_animation_params-IsReply w v args)
                                (if-IsReply (str_eq name (codes "share_canvas")) _ _
                                  (share_canvas-IsReply w v env args)
                                  (if-IsReply (str_eq name (codes "barrier")) _ _
                                    (barrier-IsReply w v args)
                                    (if-IsReply (str_eq name (codes "generate")) _ _
                                      (handle_generate-IsReply w v args)
                                      (code-IsReply rpc_fail w v))))))))))))))))

  disconnected-IsValid : IsValid (rpc_client_disconnected env.time w).handles
  unfolding rpc_client_disconnected
  disconnected-IsValid =
      let left : IsValid (handles_disconnect_user w.handles w.client.username).0 =
        unfold perform in perform-IsValid w.handles (disconnect w.client.username) room v in
      elim (Bool-cases w.client.logged_in) [
        | inl in_session ↦ rw (in_session, rpc_client_disconnected) left
        | inr out ↦ rw (out, rpc_client_disconnected) v
      ]

  disconnect-IsReply : IsReply (answered (b'0' ∷ newline ∷ []) (rpc_client_disconnected env.time w))
  unfolding IsReply
  disconnect-IsReply = ((b'0' ∷ [], refl, ((λ e. omega (arith, e)), tt)), disconnected-IsValid)

  command-IsReply : (name : Bytes) (args : List Bytes) → IsReply (command env w name args)
  unfolding command
  command-IsReply name args = if-IsReply (str_eq name (codes "Login")) _ _ (login-IsReply args) (
      if-IsReply (str_eq name (codes "Disconnect")) _ _ disconnect-IsReply (
        if-IsReply (not w.client.logged_in) _ _ (code-IsReply rpc_value w v)
          (session_command-IsReply name args)))

-- Whatever line a client sends, its request either gets a response that is exactly one line, or
-- waits on a barrier; and it keeps the invariant of the handle store. This is so whatever the calls
-- of the animate library do, and where the copy of the line or an allocation for a record or a user
-- of the store fails, if the store has a handle left to give and the text of the response itself
-- finds memory: a response for which xstrdup or malloc returns NULL is not in this theorem.
pub rpc_handle_request-IsReply :
    (env : Environment) (w : World) (line : Bytes)
    → w.handles.next_id + 1 < u64_mod
    → IsValid w.handles
    → IsReply (rpc_handle_request env w line)
unfolding rpc_handle_request
rpc_handle_request-IsReply env w line room v = elim (Option-cases (tokenize line)) [
  | inl many ↦
      if-IsReply (not env.line_ok) _ _ (code-IsReply rpc_internal w v)
        (rw (many, rpc_handle_request) (code-IsReply rpc_fail w v))
  | inr ([], found) ↦
      if-IsReply (not env.line_ok) _ _ (code-IsReply rpc_internal w v)
        (rw (found, rpc_handle_request) (code-IsReply rpc_fail w v))
  | inr (name ∷ args, found) ↦
      if-IsReply (not env.line_ok) _ _ (code-IsReply rpc_internal w v)
        (rw (found, rpc_handle_request) (command-IsReply env w room v name args))
]

-- A request that wakes up from its wait also gets a one-line response or goes on waiting, and
-- keeps the invariant of the handle store, if the store has a handle left to give and the other
-- threads keep the invariant between the frames of a movie.
pub resume-IsReply :
    (env : Environment) (w : World) (id : ℕ) (name : Bytes) (next : Next)
    → w.handles.next_id + 1 < u64_mod
    → IsTame env
    → IsValid w.handles
    → IsReply (resume env w id name next)
unfolding resume IsReply
resume-IsReply env w id name next room tame v =
    elim (Option-cases (find_record id w.handles.canvases)) [
      | inl gone ↦ rw (gone, resume) (proceed-IsReply env w room v id next tame)
      | inr (c, found) ↦ rw (found, resume) (turn (wait_turn c name))
    ]
  where
    turn :
        (p : Progress)
        → IsReply (elim p as (λ x. Outcome) [
          | waiting ↦ paused id name next w
          | returned rc ↦ proceed env w id next
        ])
    turn waiting = v
    turn (returned rc) = proceed-IsReply env w room v id next tame
