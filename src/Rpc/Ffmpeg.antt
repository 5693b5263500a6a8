-- ===== src/Rpc/Ffmpeg.antt =====
-- rpc.c, run_ffmpeg: the arguments of the program that makes a movie, and the wait for it. What the
-- system calls do is an argument.
use comp_p.Common.{
  ℕ, ◌-◌, ◌<◌, ◌^◌, ◌≡◌, Bool, false, not, List, [], ◌∷◌, ◌++◌, ◌==◌, if◌then◌else◌, Bytes, codes,
  length-append, take, take-all, arith,
}
use comp_p.CString.Decimal.{show_ℕ}
use comp_p.CString.Digits.{length-show_ℕ}

-- What snprintf puts into a buffer of that size, before the NUL.
abbrev pub snprintf : ℕ → Bytes → Bytes
snprintf size s = take (size - 1) s

unfoldable pub size_arg : ℕ → ℕ → Bytes
size_arg width height = snprintf 64 (show_ℕ width ++ (b'x' ∷ show_ℕ height))

unfoldable pub rate_arg : ℕ → Bytes
rate_arg frame_rate = snprintf 32 (show_ℕ frame_rate)

-- The arguments of execlp after the file.
unfoldable pub ffmpeg_arguments : Bytes → Bytes → ℕ → ℕ → ℕ → List Bytes
ffmpeg_arguments dat mp4 width height frame_rate =
    codes "ffmpeg"
    ∷ codes "-y"
    ∷ codes "-f"
    ∷ codes "rawvideo"
    ∷ codes "-pixel_format"
    ∷ codes "argb"
    ∷ codes "-video_size"
    ∷ size_arg width height
    ∷ codes "-framerate"
    ∷ rate_arg frame_rate
    ∷ codes "-i"
    ∷ dat
    ∷ mp4
    ∷ []

-- A call of waitpid: EINTR, another error, or the child's end with its status or by a signal.
pub data Wait : Type 0 where
  interrupted failed killed : Wait
  exited : ℕ → Wait

-- The loop of waitpid: whether run_ffmpeg returns 0. After the last call every other one fails.
unfoldable pub wait_child : List Wait → Bool
wait_child [] = false
wait_child (interrupted ∷ waits) = wait_child waits
wait_child (failed ∷ waits) = false
wait_child (killed ∷ waits) = false
wait_child (exited status ∷ waits) = status == 0

-- Whether run_ffmpeg returns 0.
unfoldable pub run_ffmpeg : Bool → Bool → List Wait → Bool
unfolding wait_child
run_ffmpeg log_opens fork_ok waits =
    if not log_opens then false else if not fork_ok then false else wait_child waits

-- The buffers hold the decimal texts of any values of size_t whole.
pub ffmpeg_arguments_fit :
    (width height frame_rate : ℕ)
    → width < 2 ^ 64
    → height < 2 ^ 64
    → frame_rate < 2 ^ 64
    → (size_arg width height ≡ show_ℕ width ++ (b'x' ∷ show_ℕ height))
      × (rate_arg frame_rate ≡ show_ℕ frame_rate)
unfolding size_arg rate_arg
ffmpeg_arguments_fit width height frame_rate w h r = (
  take-all 63 (show_ℕ width ++ (b'x' ∷ show_ℕ height)) (
      omega (
        arith,
        length-append (show_ℕ width) (b'x' ∷ show_ℕ height),
        length-show_ℕ width (omega arith),
        length-show_ℕ height (omega arith),
      )),
  take-all 31 (show_ℕ frame_rate) (omega (arith, length-show_ℕ frame_rate (omega arith))),
)
