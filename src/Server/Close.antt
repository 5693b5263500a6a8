-- ===== src/Server/Close.antt =====
-- server_main.c, close_client and the clients that it has closed.
use comp_p.Common.{
  ℕ, ◌≡◌, refl, ap, Bool, true, false, if◌then◌else◌, not, ◌&&◌, ◌||◌, ◌==◌, leb, Bool-cases, inl,
  inr,
}
use comp_p.Threadpool.{Threadpool}
use comp_p.Rpc.{World}
use comp_p.Server.Clients.{nothing_released, close_client, is_inactive, cleanup_client}

closed_disconnected :
    (now : ℕ) (w : World) (pool : Threadpool)
    → (close_client now w pool).0.client.disconnected ≡ true
unfolding close_client
closed_disconnected now w pool = elim (Bool-cases w.client.disconnected) [
  | inl gone ↦ rw (gone, close_client) refl
  | inr here ↦ rw (here, close_client) refl
]

if_true {ℓ} : {A : Type ℓ} (b : Bool) (x y : A) → b ≡ true → (if b then x else y) ≡ x
if_true true x y h = refl
if_true false x y h = absurd (cc)

if_false {ℓ} : {A : Type ℓ} (b : Bool) (x y : A) → b ≡ false → (if b then x else y) ≡ y
if_false true x y h = absurd (cc)
if_false false x y h = refl

close_again :
    (now : ℕ) (w : World) (pool : Threadpool)
    → w.client.disconnected ≡ true
    → close_client now w pool ≡ (w, pool, nothing_released)
unfolding close_client
close_again now w pool h = if_true w.client.disconnected _ _ h

cleanup_again :
    (now : ℕ) (gone : Bool) (w : World) (pool : Threadpool)
    → w.client.disconnected ≡ true
    → cleanup_client now gone w pool ≡ (w, pool, nothing_released)
unfolding cleanup_client is_inactive
cleanup_again now gone w pool h = if_false (is_inactive now gone w.client) _ _ (
    ap
      (λ b.
        not b
        && ((not (w.client.disconnect_after == 0) && leb w.client.disconnect_after now) || gone))
      h)

-- A client is closed once: after close_client, neither another close_client nor the cleanup of
-- inactive clients changes the client, the store or the pool, closes a descriptor again or unlinks
-- a FIFO again, whatever the time is and whether the process is there or not.
pub close_client_once :
    (now later : ℕ) (gone : Bool) (w : World) (pool : Threadpool)
    → let (w', pool', released) = close_client now w pool in
      (close_client later w' pool' ≡ (w', pool', nothing_released))
      × (cleanup_client later gone w' pool' ≡ (w', pool', nothing_released))
close_client_once now later gone w pool =
    let mark = closed_disconnected now w pool in
    (close_again later _ _ mark, cleanup_again later gone _ _ mark)
