-- ===== src/Connection.antt =====
-- connection.c and client_connection.c: the FIFOs of a client, on the server's and on the client's
-- side, and the pid that a signal leaves for the main thread.
pub mod Paths
pub mod Fifos
pub mod ClientSide
pub mod Handshake
pub mod Lost
pub mod Tests
use comp_p.Common.{
  ℕ, Bool, true, false, not, ◌&&◌, ◌||◌, List, [], ◌∷◌, ◌++◌, Option, none, some, leb,
  if◌then◌else◌, Bytes, codes, str_eq, length,
}
use comp_p.CString.Decimal.{show_ℕ}

abbrev pub max_fifo_name_len : ℕ
max_fifo_name_len = 256

-- The value of ANIMATE_FIFO_DIR, or the current directory.
unfoldable pub fifo_prefix : Option Bytes → Bytes
fifo_prefix none = codes "."
fifo_prefix (some []) = codes "."
fifo_prefix (some (c ∷ dir)) = c ∷ dir

unfoldable pub fifo_path : Option Bytes → Bytes → ℕ → Bytes
fifo_path dir name pid = fifo_prefix dir ++ (name ++ show_ℕ pid)

-- The paths for both directions, if they fit in buffers of `len` bytes.
unfoldable pub paths_within : ℕ → Option Bytes → ℕ → Option (Bytes × Bytes)
paths_within len dir pid =
    let c2s = fifo_path dir (codes "/FIFO_C2S_") pid in
    let s2c = fifo_path dir (codes "/FIFO_S2C_") pid in
    if leb len (length c2s) || leb len (length s2c) then none else some (c2s, s2c)

unfoldable pub get_fifo_paths : Option Bytes → ℕ → Option (Bytes × Bytes)
get_fifo_paths dir pid = paths_within max_fifo_name_len dir pid

unfoldable pub get_client_fifo_paths : ℕ → Option Bytes → ℕ → Option (Bytes × Bytes)
get_client_fifo_paths path_len dir pid = paths_within path_len dir pid

-- The names that exist.
unfoldable pub remove : Bytes → List Bytes → List Bytes
remove path [] = []
remove path (p ∷ ps) = let rest = remove path ps in if str_eq p path then rest else p ∷ rest

unfoldable pub exists : Bytes → List Bytes → Bool
exists path [] = false
exists path (p ∷ ps) = str_eq p path || exists path ps

-- unlink and mkfifo, with what the system says. A name that is not unlinked stays, and a name that
-- exists is not made; the result of mkfifo is `none` if it fails.
unfoldable pub unlink : Bool → Bytes → List Bytes → List Bytes
unlink false path names = names
unlink true path names = remove path names

unfoldable pub mkfifo : Bool → Bytes → List Bytes → Option (List Bytes)
unfolding exists
mkfifo system_ok path names =
    if not system_ok || exists path names then none else some (path ∷ names)

-- What the system says to the calls of create_fifos.
pub record Creating : Type 0 where
  pub unlink_c2s_ok : Bool
  pub unlink_s2c_ok : Bool
  pub mkfifo_c2s_ok : Bool
  pub mkfifo_s2c_ok : Bool
  pub clean_up_ok : Bool

-- The result is true for the return code 0.
unfoldable pub create_fifos : Creating → Option Bytes → ℕ → List Bytes → Bool × List Bytes
unfolding unlink mkfifo
create_fifos os dir pid names = elim (get_fifo_paths dir pid) [
  | none ↦ (false, names)
  | some (c2s, s2c) ↦
      let names' = unlink os.unlink_s2c_ok s2c (unlink os.unlink_c2s_ok c2s names) in
      elim (mkfifo os.mkfifo_c2s_ok c2s names') [
        | none ↦ (false, names')
        | some one ↦ elim (mkfifo os.mkfifo_s2c_ok s2c one) [
          | none ↦ (false, unlink os.clean_up_ok c2s one)
          | some both ↦ (true, both)
        ]
      ]
]

unfoldable pub unlink_fifos : Bool → Bool → Option Bytes → ℕ → List Bytes → Bool × List Bytes
unfolding unlink
unlink_fifos c2s_ok s2c_ok dir pid names = elim (get_fifo_paths dir pid) [
  | none ↦ (false, names)
  | some (c2s, s2c) ↦ (true, unlink s2c_ok s2c (unlink c2s_ok c2s names))
]

-- The handler of SIGUSR1 and the call that takes its pid. 0 is no pid.
abbrev pub sigusr1_handler : ℕ → ℕ → ℕ
sigusr1_handler si_pid pending_client_pid = si_pid

abbrev pub server_take_pending_client : ℕ → ℕ × ℕ
server_take_pending_client pending_client_pid = (pending_client_pid, 0)
