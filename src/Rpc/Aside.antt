-- ===== src/Rpc/Aside.antt =====
-- rpc.c, what the commands of a session leave of the client that asks: all of it.
use comp_p.Common.{
  ℕ, ◌≡◌, refl, List, [], ◌∷◌, Option, none, some, Bytes, inl, inr, arith, Option-cases,
}
use comp_p.ServerCommon.{ClientState}
use comp_p.CString.Number.{ℤ}
use comp_p.Handles.{HandleStore, CanvasRecord, PlacementRecord}
use comp_p.Handles.Store.{handles_get_placement}
use comp_p.Rpc.Text.{parse_u64}
use comp_p.Handles.Barrier.{Progress, returned, waiting}
use comp_p.Rpc.{Environment, World, Move, Next, to_move, to_set, Outcome, answered, paused}
use comp_p.Rpc.Create.{
  canvas_arguments, add_new_canvas, create_canvas, add_new_sprite, create_sprite,
  rectangle_arguments, create_rectangle, circle_arguments, create_circle, one_handle,
  destroy_canvas, destroy_sprite, destroy_placement,
}
use comp_p.Rpc.Place.{
  place_arguments, place_on, place_sprite, wait_canvas, move_now, set_now, with_placement,
  placement_move, params_arguments, set_animation_params,
}
use comp_p.Rpc.Share.{share_arguments, share_on, share_canvas, barrier_outcome, barrier_on, barrier}
use comp_p.Rpc.Generate.{generate_arguments, generate_on, handle_generate}

-- The client after the command, or when it waits.
unfoldable pub client_of : Outcome → ClientState
client_of (answered response w) = w.client
client_of (paused id name next w) = w.client

module _ (env : Environment) (w : World) where
  add_new_canvas-client :
      (canvas width height : ℕ) → client_of (add_new_canvas env w canvas width height) ≡ w.client
  unfolding add_new_canvas client_of
  add_new_canvas-client canvas width height = ground arith

  pub create_canvas-client : (args : List Bytes) → client_of (create_canvas env w args) ≡ w.client
  unfolding create_canvas client_of
  create_canvas-client args = elim (Option-cases (canvas_arguments args)) [
    | inl bad ↦ rw (bad, create_canvas) refl
    | inr (a, good) ↦ rw (good, create_canvas) (add_new_canvas-client _ _ _)
  ]

  add_new_sprite-client : (sprite : ℕ) → client_of (add_new_sprite env w sprite) ≡ w.client
  unfolding add_new_sprite client_of
  add_new_sprite-client sprite = ground arith

  pub create_sprite-client : (args : List Bytes) → client_of (create_sprite env w args) ≡ w.client
  unfolding create_sprite client_of
  create_sprite-client (file ∷ []) = add_new_sprite-client _
  create_sprite-client [] = refl
  create_sprite-client (file ∷ more ∷ args) = refl

  pub create_rectangle-client :
      (args : List Bytes) → client_of (create_rectangle env w args) ≡ w.client
  unfolding create_rectangle client_of
  create_rectangle-client args = elim (Option-cases (rectangle_arguments args)) [
    | inl bad ↦ rw (bad, create_rectangle) refl
    | inr (a, good) ↦ rw (good, create_rectangle) (add_new_sprite-client _)
  ]

  pub create_circle-client : (args : List Bytes) → client_of (create_circle env w args) ≡ w.client
  unfolding create_circle client_of
  create_circle-client args = elim (Option-cases (circle_arguments args)) [
    | inl bad ↦ rw (bad, create_circle) refl
    | inr (a, good) ↦ rw (good, create_circle) (add_new_sprite-client _)
  ]

  pub destroy_canvas-client : (args : List Bytes) → client_of (destroy_canvas w args) ≡ w.client
  unfolding destroy_canvas client_of
  destroy_canvas-client args = elim (Option-cases (one_handle args)) [
    | inl bad ↦ rw (bad, destroy_canvas) refl
    | inr (a, good) ↦ rw (good, destroy_canvas) refl
  ]

  pub destroy_sprite-client : (args : List Bytes) → client_of (destroy_sprite env w args) ≡ w.client
  unfolding destroy_sprite client_of
  destroy_sprite-client args = elim (Option-cases (one_handle args)) [
    | inl bad ↦ rw (bad, destroy_sprite) refl
    | inr (a, good) ↦ rw (good, destroy_sprite) refl
  ]

  pub destroy_placement-client :
      (args : List Bytes) → client_of (destroy_placement w args) ≡ w.client
  unfolding destroy_placement client_of
  destroy_placement-client args = elim (Option-cases (one_handle args)) [
    | inl bad ↦ rw (bad, destroy_placement) refl
    | inr (a, good) ↦ rw (good, destroy_placement) refl
  ]

  place_on-client :
      (sprite_id : ℕ) (x y : ℤ) (found : Option (CanvasRecord × HandleStore))
      → client_of (place_on w sprite_id x y found) ≡ w.client
  unfolding place_on client_of
  place_on-client sprite_id x y none = refl
  place_on-client sprite_id x y (some (c, s)) = ground arith

  pub place_sprite-client : (args : List Bytes) → client_of (place_sprite w args) ≡ w.client
  unfolding place_sprite client_of
  place_sprite-client args = elim (Option-cases (place_arguments args)) [
    | inl bad ↦ rw (bad, place_sprite) refl
    | inr (a, good) ↦ rw (good, place_sprite) (place_on-client _ _ _ _)
  ]

  wait_canvas-client :
      (next : Next) (now : Outcome) (found : Option (CanvasRecord × HandleStore))
      → client_of now ≡ w.client
      → client_of (wait_canvas w next now found) ≡ w.client
  unfolding wait_canvas client_of
  wait_canvas-client next now none h = h
  wait_canvas-client next now (some (c, s)) h = refl

  with_placement-client :
      (next : PlacementRecord → Next) (now : PlacementRecord → Outcome) (id : ℕ)
      → ((p : PlacementRecord) → client_of (now p) ≡ w.client)
      → client_of (with_placement w next now id) ≡ w.client
  unfolding with_placement
  with_placement-client next now id h =
      elim (Option-cases (handles_get_placement w.handles id w.client.username)) [
        | inl bad ↦ rw (bad, with_placement) (unfold client_of in refl)
        | inr (p, good) ↦ rw (good, with_placement) (wait_canvas-client (next p) (now p) _ (h p))
      ]

  pub move_now-client : (move : Move) (id : ℕ) → client_of (move_now w move id) ≡ w.client
  unfolding move_now client_of
  move_now-client move id = refl

  pub set_now-client : (id : ℕ) (vx vy ax ay : ℤ) → client_of (set_now w id vx vy ax ay) ≡ w.client
  unfolding set_now client_of
  set_now-client id vx vy ax ay = refl

  pub placement_move-client :
      (move : Move) (args : List Bytes) → client_of (placement_move move w args) ≡ w.client
  unfolding placement_move client_of
  placement_move-client move [] = refl
  placement_move-client move (id ∷ []) = elim (Option-cases (parse_u64 id)) [
    | inl bad ↦ rw (bad, placement_move) refl
    | inr (n, good) ↦
        rw (good, placement_move)
          (with_placement-client (λ p. to_move move p.id) (λ p. move_now w move p.id) n
            (λ p. move_now-client move p.id))
  ]
  placement_move-client move (id ∷ more ∷ args) = refl

  pub set_animation_params-client :
      (args : List Bytes) → client_of (set_animation_params w args) ≡ w.client
  unfolding set_animation_params client_of
  set_animation_params-client args = elim (Option-cases (params_arguments args)) [
    | inl bad ↦ rw (bad, set_animation_params) refl
    | inr ((id, vx, vy, ax, ay), good) ↦
        rw (good, set_animation_params)
          (with_placement-client (λ p. to_set p.id vx vy ax ay) (λ p. set_now w p.id vx vy ax ay) id
            (λ p. set_now-client p.id vx vy ax ay))
  ]

  share_on-client :
      (name : Bytes) (found : Option (CanvasRecord × HandleStore))
      → client_of (share_on env w name found) ≡ w.client
  unfolding share_on client_of
  share_on-client name none = refl
  share_on-client name (some (c, s)) = refl

  pub share_canvas-client : (args : List Bytes) → client_of (share_canvas env w args) ≡ w.client
  unfolding share_canvas client_of
  share_canvas-client args = elim (Option-cases (share_arguments w args)) [
    | inl bad ↦ rw (bad, share_canvas) refl
    | inr (a, good) ↦ rw (good, share_canvas) (share_on-client _ _)
  ]

  barrier_outcome-client :
      (w' : World) (id : ℕ) (p : Progress) → client_of (barrier_outcome w' id p) ≡ w'.client
  unfolding barrier_outcome client_of
  barrier_outcome-client w' id (returned rc) = refl
  barrier_outcome-client w' id waiting = refl

  barrier_on-client :
      (found : Option (CanvasRecord × HandleStore)) → client_of (barrier_on w found) ≡ w.client
  unfolding barrier_on
  barrier_on-client none = unfold client_of in refl
  barrier_on-client (some (c, s)) = barrier_outcome-client _ _ _

  pub barrier-client : (args : List Bytes) → client_of (barrier w args) ≡ w.client
  unfolding barrier client_of
  barrier-client args = elim (Option-cases (one_handle args)) [
    | inl bad ↦ rw (bad, barrier) refl
    | inr (a, good) ↦ rw (good, barrier) (barrier_on-client _)
  ]

  generate_on-client :
      (next : Next) (found : Option (CanvasRecord × HandleStore))
      → client_of (generate_on w next found) ≡ w.client
  unfolding generate_on client_of
  generate_on-client next none = refl
  generate_on-client next (some (c, s)) = refl

  pub handle_generate-client : (args : List Bytes) → client_of (handle_generate w args) ≡ w.client
  unfolding handle_generate client_of
  handle_generate-client (c ∷ base ∷ s ∷ e ∷ f ∷ []) =
      elim (Option-cases (generate_arguments c base s e f)) [
        | inl bad ↦ rw (bad, handle_generate) refl
        | inr (a, good) ↦ rw (good, handle_generate) (generate_on-client _ _)
      ]
  handle_generate-client [] = refl
  handle_generate-client (c ∷ []) = refl
  handle_generate-client (c ∷ b ∷ []) = refl
  handle_generate-client (c ∷ b ∷ s ∷ []) = refl
  handle_generate-client (c ∷ b ∷ s ∷ e ∷ []) = refl
  handle_generate-client (c ∷ b ∷ s ∷ e ∷ f ∷ g ∷ more) = refl
