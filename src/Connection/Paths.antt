-- ===== src/Connection/Paths.antt =====
-- connection.c and client_connection.c, the names of the FIFOs.
use mathlib.Core.List.{append_cancel_left}
use comp_p.Common.{
  ℕ, ◌≡◌, ◌≢◌, sym, ap, ◌∙◌, [], ◌∷◌, ◌++◌, Option, some, Bytes, codes, drop, arith,
}
use comp_p.CString.Decimal.{show_ℕ}
use comp_p.CString.Digits.{show_ℕ-injective}
use comp_p.Connection.{
  max_fifo_name_len, fifo_prefix, fifo_path, paths_within, get_fifo_paths, get_client_fifo_paths,
}

-- The byte that tells the two directions apart.
direction : Bytes → ℕ
direction s = first (drop 6 s)
  where
    first : Bytes → ℕ
    first [] = 0
    first (c ∷ t) = c

fifo_path-injective :
    (dir : Option Bytes) (name : Bytes) (p q : ℕ)
    → fifo_path dir name p ≡ fifo_path dir name q
    → p ≡ q
unfolding fifo_path
fifo_path-injective dir name p q e = show_ℕ-injective p q (
    append_cancel_left name (show_ℕ p) (show_ℕ q)
      (append_cancel_left (fifo_prefix dir) (name ++ show_ℕ p) (name ++ show_ℕ q) e))

fifo_path-apart :
    (dir : Option Bytes) (p q : ℕ)
    → fifo_path dir (codes "/FIFO_C2S_") p ≢ fifo_path dir (codes "/FIFO_S2C_") q
unfolding fifo_path direction
fifo_path-apart dir p q e =
    let same : 67 ≡ 83 = ap direction (
      append_cancel_left (fifo_prefix dir) (codes "/FIFO_C2S_" ++ show_ℕ p)
        (codes "/FIFO_S2C_" ++ show_ℕ q) e) in
    omega (arith, same)

-- The paths that the function returns.
pub get_fifo_paths-some :
    (dir : Option Bytes) (pid : ℕ) (c2s s2c : Bytes)
    → get_fifo_paths dir pid ≡ some (c2s, s2c)
    → (c2s ≡ fifo_path dir (codes "/FIFO_C2S_") pid)
      × (s2c ≡ fifo_path dir (codes "/FIFO_S2C_") pid)
unfolding get_fifo_paths paths_within
get_fifo_paths-some dir pid c2s s2c e = ground arith

-- For two clients whose paths fit in the buffers, in one directory: the client program computes
-- the paths that the server computes, the path to the server of the one is not the path to the
-- client of the other, and if the two share a path in one direction, they are the same client.
pub fifo_paths_lem :
    (dir : Option Bytes) (p q : ℕ) (c2s s2c c2s' s2c' : Bytes)
    → get_fifo_paths dir p ≡ some (c2s, s2c)
    → get_fifo_paths dir q ≡ some (c2s', s2c')
    → (get_client_fifo_paths max_fifo_name_len dir p ≡ some (c2s, s2c))
      × (c2s ≢ s2c')
      × (c2s ≡ c2s' → p ≡ q)
      × (s2c ≡ s2c' → p ≡ q)
unfolding get_client_fifo_paths
fifo_paths_lem dir p q c2s s2c c2s' s2c' ep eq =
    let (a, b) = get_fifo_paths-some dir p c2s s2c ep in
    let (a', b') = get_fifo_paths-some dir q c2s' s2c' eq in
    (
      unfold get_fifo_paths in ep,
      (λ e. fifo_path-apart dir p q (sym a ∙ (e ∙ b'))),
      (λ e. fifo_path-injective dir (codes "/FIFO_C2S_") p q (sym a ∙ (e ∙ a'))),
      (λ e. fifo_path-injective dir (codes "/FIFO_S2C_") p q (sym b ∙ (e ∙ b'))),
    )
