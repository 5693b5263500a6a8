-- ===== src/Rpc/Generate.antt =====
-- The request that writes the frames of a canvas to a file and has ffmpeg make a movie of it.
use comp_p.Common.{
  ℕ, zero, suc, ◌-◌, true, false, not, ◌&&◌, List, [], ◌∷◌, Option, none, some, ◌==◌, ltb,
  if◌then◌else◌, Bytes, codes, ◌>>=◌, some_if, ◌⊎◌, inl, inr,
}
use comp_p.CString.Number.{pos, negsuc}
use comp_p.Handles.{HandleStore, CanvasRecord}
use comp_p.Handles.Store.{handles_get_canvas}
use comp_p.Rpc.{
  Environment, World, Next, to_generate, frame_generated, ffmpeg_started, Outcome, answered, paused,
  with_handles, with_log,
}
use comp_p.Rpc.Ffmpeg.{ffmpeg_arguments, run_ffmpeg}
use comp_p.Rpc.Text.{
  rpc_fail, rpc_value, rpc_internal, response_code, response_generate, parse_u64, parse_size,
  valid_filename_base, with_suffix,
}

-- The canvas id, the base of the file names, the first and the last frame and the frame rate.
unfoldable pub generate_arguments :
    Bytes → Bytes → Bytes → Bytes → Bytes → Option (ℕ × Bytes × ℕ × ℕ × ℕ)
generate_arguments c base s e f = do
  let canvas_id = (← parse_u64 c)
  let start = (← parse_size s)
  let end = (← parse_size e)
  let frame_rate = (← parse_size f)
  some_if (valid_filename_base base && (not (ltb end start) && not (frame_rate == 0)))
      (canvas_id, base, start, end, frame_rate)

-- The request waits on the barrier of the canvas first.
unfoldable pub generate_on : World → Next → Option (CanvasRecord × HandleStore) → Outcome
generate_on w next none = answered (response_code rpc_value) w
generate_on w next (some (c, s)) = paused c.id w.client.username next (with_handles s w)

unfoldable pub handle_generate : World → List Bytes → Outcome
handle_generate w (c ∷ base ∷ s ∷ e ∷ f ∷ []) = elim (generate_arguments c base s e f) [
  | none ↦ answered (response_code rpc_value) w
  | some (canvas_id, name, start, end, frame_rate) ↦
      generate_on w (to_generate name start end frame_rate)
        (handles_get_canvas w.handles canvas_id w.client.username)
]
handle_generate w _ = answered (response_code rpc_fail) w

-- The loop over the frames: `count` frames from `frame` on. It ends early with a response, or with
-- the canvas of the last frame.
unfoldable pub generate_frames :
    Environment
    → ℕ
    → ℕ
    → ℕ
    → ℕ
    → Option CanvasRecord
    → World
    → (Bytes × World) ⊎ (Option CanvasRecord × World)
generate_frames env canvas_id frame_rate frame zero last w = inr (last, w)
generate_frames env canvas_id frame_rate frame (suc count) last w =
    elim (handles_get_canvas (env.others frame w.handles) canvas_id w.client.username) [
      | none ↦ inl (response_code rpc_value, with_handles (env.others frame w.handles) w)
      | some (c, s) ↦
          let w' = with_log (frame_generated c.canvas frame frame_rate ∷ []) (with_handles s w) in
          elim (env.frame_writes frame) [
            | false ↦ inl (response_generate (negsuc 0) (pos 0), w')
            | true ↦ generate_frames env canvas_id frame_rate (suc frame) count (some c) w'
          ]
    ]

unfoldable pub width_of : Option CanvasRecord → ℕ × ℕ
width_of none = (0, 0)
width_of (some c) = (c.width, c.height)

unfoldable pub make_movie :
    Environment → Bytes → ℕ → (Bytes × World) ⊎ (Option CanvasRecord × World) → Outcome
make_movie env base frame_rate (inl (response, w)) = answered response w
make_movie env base frame_rate (inr (last, w)) =
    let (width, height) = width_of last in
    let arguments =
      ffmpeg_arguments (with_suffix base (codes ".dat")) (with_suffix base (codes ".mp4")) width
        height frame_rate in
    let w' =
      with_log (if env.log_opens && env.fork_ok then ffmpeg_started arguments ∷ [] else []) w in
    if not env.dat_closes
    then answered (response_generate (negsuc 0) (pos 0)) w
    else if not (run_ffmpeg env.log_opens env.fork_ok env.waits)
    then answered (response_generate (pos 0) (negsuc 0)) w'
    else answered (response_generate (pos 0) (pos 0)) w'

-- After the wait: the frames `start` to `end`, both included.
unfoldable pub generate_now : Environment → World → ℕ → Bytes → ℕ → ℕ → ℕ → Outcome
generate_now env w canvas_id base start end frame_rate =
    if not env.buffers_ok
    then answered (response_code rpc_internal) w
    else if not env.dat_opens
    then answered (response_generate (negsuc 0) (pos 0)) w
    else make_movie env base frame_rate
        (generate_frames env canvas_id frame_rate start (suc end - start) none w)
