-- ===== src/Rpc/Kept.antt =====
-- rpc.c, responses and the handle store over the commands that do not wait.
use comp_p.Common.{
  ℕ, ◌+◌, ◌<◌, Bool, true, false, List, [], ◌∷◌, if◌then◌else◌, Bytes, Option-cases, inl, inr, ◌==◌,
}
use comp_p.CString.Number.{ℤ, pos, negsuc}
use comp_p.Handles.{u64_mod, null}
use comp_p.Handles.RecordValidity.{IsValid}
use comp_p.Handles.Validity.{
  add_canvas-IsValid, add_sprite-IsValid, destroy_canvas-IsValid, destroy_sprite-IsValid,
  destroy_placement-IsValid,
}
use comp_p.Rpc.{Environment, World, Outcome, answered, paused}
use comp_p.Rpc.Text.{response_code, response_u64, rpc_value}
use comp_p.Rpc.Create.{
  canvas_arguments, add_new_canvas, create_canvas, add_new_sprite, create_sprite,
  rectangle_arguments, create_rectangle, circle_arguments, create_circle, one_handle,
  destroy_canvas, sprite_reply, destroy_sprite, destroy_placement,
}
use comp_p.Rpc.Lines.{IsLine, response_code-IsLine, response_u64-IsLine}

-- A response that is one line, or a wait, and in both cases a valid store.
unfoldable pub IsReply : Outcome → Type 0
IsReply (answered text w) = IsLine text × IsValid w.handles
IsReply (paused id name next w) = IsValid w.handles

pub code-IsReply :
    (code : ℤ) (w : World) → IsValid w.handles → IsReply (answered (response_code code) w)
unfolding IsReply
code-IsReply code w v = (response_code-IsLine code, v)

pub u64-IsReply : (n : ℕ) (w : World) → IsValid w.handles → IsReply (answered (response_u64 n) w)
unfolding IsReply
u64-IsReply n w v = (response_u64-IsLine n, v)

pub if-IsReply : (b : Bool) (x y : Outcome) → IsReply x → IsReply y → IsReply (if b then x else y)
if-IsReply true x y hx hy = hx
if-IsReply false x y hx hy = hy

module _ (env : Environment) (w : World) (room : w.handles.next_id + 1 < u64_mod)
    (v : IsValid w.handles) where
  pub add_new_canvas-IsReply :
      (canvas width height : ℕ) → IsReply (add_new_canvas env w canvas width height)
  unfolding add_new_canvas
  add_new_canvas-IsReply canvas width height =
      if-IsReply (canvas == null) _ _ (code-IsReply _ _ v) (
        if-IsReply _ _ _ (code-IsReply _ _ v) (
          u64-IsReply _ _ (
            add_canvas-IsValid w.handles env.record_ok env.user_ok canvas width height
              w.client.username room v)))

  pub add_new_sprite-IsReply : (sprite : ℕ) → IsReply (add_new_sprite env w sprite)
  unfolding add_new_sprite
  add_new_sprite-IsReply sprite = if-IsReply (sprite == null) _ _ (code-IsReply _ _ v) (
      if-IsReply _ _ _ (code-IsReply _ _ v) (
        u64-IsReply _ _
          (add_sprite-IsValid w.handles env.record_ok sprite w.client.username room v)))

  pub create_canvas-IsReply : (args : List Bytes) → IsReply (create_canvas env w args)
  unfolding create_canvas
  create_canvas-IsReply args = elim (Option-cases (canvas_arguments args)) [
    | inl bad ↦ rw (bad, create_canvas) (code-IsReply _ _ v)
    | inr ((height, width, color), good) ↦
        rw (good, create_canvas)
          (add_new_canvas-IsReply (env.animate_create_canvas height width color) width height)
  ]

  pub create_sprite-IsReply : (args : List Bytes) → IsReply (create_sprite env w args)
  unfolding create_sprite
  create_sprite-IsReply [] = code-IsReply _ _ v
  create_sprite-IsReply (file ∷ []) = add_new_sprite-IsReply (env.animate_create_sprite file)
  create_sprite-IsReply (file ∷ x ∷ rest) = code-IsReply _ _ v

  pub create_rectangle-IsReply : (args : List Bytes) → IsReply (create_rectangle env w args)
  unfolding create_rectangle
  create_rectangle-IsReply args = elim (Option-cases (rectangle_arguments args)) [
    | inl bad ↦ rw (bad, create_rectangle) (code-IsReply _ _ v)
    | inr ((width, height, color, filled), good) ↦
        rw (good, create_rectangle)
          (add_new_sprite-IsReply (env.animate_create_rectangle width height color filled))
  ]

  pub create_circle-IsReply : (args : List Bytes) → IsReply (create_circle env w args)
  unfolding create_circle
  create_circle-IsReply args = elim (Option-cases (circle_arguments args)) [
    | inl bad ↦ rw (bad, create_circle) (code-IsReply _ _ v)
    | inr ((radius, color, filled), good) ↦
        rw (good, create_circle)
          (add_new_sprite-IsReply (env.animate_create_circle radius color filled))
  ]

  pub destroy_canvas-IsReply : (args : List Bytes) → IsReply (destroy_canvas w args)
  unfolding destroy_canvas
  destroy_canvas-IsReply args = elim (Option-cases (one_handle args)) [
    | inl bad ↦ rw (bad, destroy_canvas) (code-IsReply _ _ v)
    | inr (id, good) ↦
        rw (good, destroy_canvas)
          (code-IsReply _ _ (destroy_canvas-IsValid w.handles id w.client.username v))
  ]

  sprite_reply-IsLine : (rc : ℤ) → IsLine (sprite_reply rc)
  unfolding sprite_reply
  sprite_reply-IsLine (pos n) = response_u64-IsLine n
  sprite_reply-IsLine (negsuc n) = response_code-IsLine rpc_value

  pub destroy_sprite-IsReply : (args : List Bytes) → IsReply (destroy_sprite env w args)
  unfolding destroy_sprite IsReply
  destroy_sprite-IsReply args = elim (Option-cases (one_handle args)) [
    | inl bad ↦ rw (bad, destroy_sprite) (code-IsReply rpc_value w v)
    | inr (id, good) ↦
        rw (good, destroy_sprite)
          (
            sprite_reply-IsLine _,
            destroy_sprite-IsValid env.animate_destroy_sprite w.handles id w.client.username v,
          )
  ]

  pub destroy_placement-IsReply : (args : List Bytes) → IsReply (destroy_placement w args)
  unfolding destroy_placement
  destroy_placement-IsReply args = elim (Option-cases (one_handle args)) [
    | inl bad ↦ rw (bad, destroy_placement) (code-IsReply _ _ v)
    | inr (id, good) ↦
        rw (good, destroy_placement)
          (code-IsReply _ _ (destroy_placement-IsValid w.handles id w.client.username v))
  ]
