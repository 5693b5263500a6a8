-- ===== src/Rpc/Waits.antt =====
-- rpc.c, responses and the handle store over the commands that may wait.
use comp_p.Common.{ℕ, List, [], ◌∷◌, Bytes, Option-cases, inl, inr}
use comp_p.CString.Number.{ℤ, pos}
use comp_p.Handles.{PlacementRecord}
use comp_p.Handles.Store.{handles_get_canvas, handles_get_sprite, handles_get_placement}
use comp_p.Handles.Barrier.{Progress, returned, waiting}
use comp_p.Handles.RecordValidity.{
  IsValid, put-Canvases, with_canvases, share_change-IsCanvas, barrier_change-IsCanvas,
}
use comp_p.Handles.Validity.{get-IsCanvas-IsValid}
use comp_p.Rpc.{Environment, Move, World, Next, Outcome}
use comp_p.Rpc.Text.{rpc_value, rpc_fail, parse_u64}
use comp_p.Rpc.Create.{one_handle}
use comp_p.Rpc.Place.{
  place_arguments, place_on, place_sprite, wait_canvas, move_now, set_now, with_placement,
  placement_move, params_arguments, set_animation_params,
}
use comp_p.Rpc.Share.{
  share_arguments, share_on, share_canvas, put_record, barrier_outcome, barrier_on, barrier,
}
use comp_p.Rpc.Generate.{generate_arguments, generate_on, handle_generate}
use comp_p.Rpc.Kept.{IsReply, code-IsReply}

module _ (w : World) (v : IsValid w.handles) where
  pub place_sprite-IsReply : (args : List Bytes) → IsReply (place_sprite w args)
  unfolding place_sprite place_on
  place_sprite-IsReply args = elim (Option-cases (place_arguments args)) [
    | inl bad ↦ rw (bad, place_sprite) (code-IsReply rpc_value w v)
    | inr ((canvas_id, sprite_id, x, y), good) ↦
        elim (Option-cases (handles_get_canvas w.handles canvas_id w.client.username)) [
          | inl miss ↦ rw (good, miss, place_sprite, place_on) (code-IsReply rpc_value w v)
          | inr ((c, s), hit) ↦
              let (i, v') = get-IsCanvas-IsValid w.handles s canvas_id w.client.username c v hit in
              elim (Option-cases (handles_get_sprite s sprite_id w.client.username)) [
                | inl lost ↦
                    rw (good, hit, lost, place_sprite, place_on) (code-IsReply rpc_value _ v')
                | inr (r, found) ↦
                    rw (good, hit, found, place_sprite, place_on) (unfold IsReply in v')
              ]
        ]
  ]

  pub wait_canvas-IsReply :
      (next : Next) (now : Outcome) (id : ℕ)
      → IsReply now
      → IsReply (wait_canvas w next now (handles_get_canvas w.handles id w.client.username))
  unfolding wait_canvas IsReply
  wait_canvas-IsReply next now id h =
      elim (Option-cases (handles_get_canvas w.handles id w.client.username)) [
        | inl miss ↦ rw (miss, wait_canvas) h
        | inr ((c, s), hit) ↦
            rw (hit, wait_canvas, IsReply)
              (get-IsCanvas-IsValid w.handles s id w.client.username c v hit).1
      ]

  pub with_placement-IsReply :
      (next : PlacementRecord → Next) (now : PlacementRecord → Outcome) (id : ℕ)
      → ((p : PlacementRecord) → IsReply (now p))
      → IsReply (with_placement w next now id)
  unfolding with_placement
  with_placement-IsReply next now id h =
      elim (Option-cases (handles_get_placement w.handles id w.client.username)) [
        | inl miss ↦ rw (miss, with_placement) (code-IsReply rpc_value w v)
        | inr (p, hit) ↦
            rw (hit, with_placement) (wait_canvas-IsReply (next p) (now p) p.canvas_id (h p))
      ]

  pub move_now-IsReply : (move : Move) (id : ℕ) → IsReply (move_now w move id)
  unfolding move_now
  move_now-IsReply move id = code-IsReply (pos 0) _ v

  pub set_now-IsReply : (id : ℕ) (vx vy ax ay : ℤ) → IsReply (set_now w id vx vy ax ay)
  unfolding set_now
  set_now-IsReply id vx vy ax ay = code-IsReply (pos 0) _ v

  pub placement_move-IsReply :
      (move : Move) (args : List Bytes) → IsReply (placement_move move w args)
  unfolding placement_move
  placement_move-IsReply move [] = code-IsReply rpc_value w v
  placement_move-IsReply move (t ∷ u ∷ rest) = code-IsReply rpc_value w v
  placement_move-IsReply move (t ∷ []) = elim (Option-cases (parse_u64 t)) [
    | inl bad ↦ rw (bad, placement_move) (code-IsReply rpc_value w v)
    | inr (id, good) ↦
        rw (good, placement_move) (with_placement-IsReply _ _ id (λ p. move_now-IsReply move p.id))
  ]

  pub set_animation_params-IsReply : (args : List Bytes) → IsReply (set_animation_params w args)
  unfolding set_animation_params
  set_animation_params-IsReply args = elim (Option-cases (params_arguments args)) [
    | inl bad ↦ rw (bad, set_animation_params) (code-IsReply rpc_value w v)
    | inr ((id, vx, vy, ax, ay), good) ↦
        rw (good, set_animation_params)
          (with_placement-IsReply _ _ id (λ p. set_now-IsReply p.id vx vy ax ay))
  ]

  pub share_canvas-IsReply :
      (env : Environment) (args : List Bytes) → IsReply (share_canvas env w args)
  unfolding share_canvas share_on put_record
  share_canvas-IsReply env args = elim (Option-cases (share_arguments w args)) [
    | inl bad ↦ rw (bad, share_canvas) (code-IsReply rpc_value w v)
    | inr ((id, name), good) ↦
        elim (Option-cases (handles_get_canvas w.handles id w.client.username)) [
          | inl miss ↦ rw (good, miss, share_canvas, share_on) (code-IsReply rpc_value w v)
          | inr ((c, s), hit) ↦
              let (i, v') = get-IsCanvas-IsValid w.handles s id w.client.username c v hit in
              rw (good, hit, share_canvas, share_on)
                (code-IsReply _ _ (
                  with_canvases s _ v' (
                    put-Canvases s.next_id _ s.canvases (share_change-IsCanvas env.user_ok name c i)
                      v'.canvases)))
        ]
  ]

  pub barrier_outcome-IsReply :
      (w' : World) (id : ℕ) (progress : Progress)
      → IsValid w'.handles
      → IsReply (barrier_outcome w' id progress)
  unfolding barrier_outcome IsReply
  barrier_outcome-IsReply w' id (returned rc) h = code-IsReply _ w' h
  barrier_outcome-IsReply w' id waiting h = h

  pub barrier-IsReply : (args : List Bytes) → IsReply (barrier w args)
  unfolding barrier barrier_on put_record
  barrier-IsReply args = elim (Option-cases (one_handle args)) [
    | inl bad ↦ rw (bad, barrier) (code-IsReply rpc_value w v)
    | inr (id, good) ↦ elim (Option-cases (handles_get_canvas w.handles id w.client.username)) [
      | inl miss ↦ rw (good, miss, barrier, barrier_on) (code-IsReply rpc_value w v)
      | inr ((c, s), hit) ↦
          let (i, v') = get-IsCanvas-IsValid w.handles s id w.client.username c v hit in
          rw (good, hit, barrier, barrier_on)
            (barrier_outcome-IsReply _ c.id _ (
              with_canvases s _ v' (
                put-Canvases s.next_id _ s.canvases (barrier_change-IsCanvas w.client.username c i)
                  v'.canvases)))
    ]
  ]

  pub handle_generate-IsReply : (args : List Bytes) → IsReply (handle_generate w args)
  unfolding handle_generate generate_on IsReply
  handle_generate-IsReply (c ∷ base ∷ a ∷ b ∷ f ∷ []) =
      elim (Option-cases (generate_arguments c base a b f)) [
        | inl bad ↦ rw (bad, handle_generate) (code-IsReply rpc_value w v)
        | inr ((id, name, start, end, rate), good) ↦
            elim (Option-cases (handles_get_canvas w.handles id w.client.username)) [
              | inl miss ↦
                  rw (good, miss, handle_generate, generate_on) (code-IsReply rpc_value w v)
              | inr ((r, s), hit) ↦
                  rw (good, hit, handle_generate, generate_on)
                    (get-IsCanvas-IsValid w.handles s id w.client.username r v hit).1
            ]
      ]
  handle_generate-IsReply _ = code-IsReply rpc_fail w v
