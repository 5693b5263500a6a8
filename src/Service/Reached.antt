-- ===== src/Service/Reached.antt =====
-- server_main.c, close_client: what the main thread does with a client are steps of the service.
use comp_p.Common.{
  ℕ, ◌≡◌, refl, sym, ap, subst, ◌∙◌, Bool, true, false, ◌==◌, ==_iff, Option, none, if◌then◌else◌,
  Bool-cases, ◌⊎◌, inl, inr,
}
use std.Path.{fun_ext}
use comp_p.Auth.{AuthDb}
use comp_p.Handles.{HandleStore}
use comp_p.ServerCommon.{ClientState}
use comp_p.Threadpool.{Threadpool}
use comp_p.Threadpool.Queues.{threadpool_remove_client}
use comp_p.Rpc.{World}
use comp_p.Rpc.Request.{rpc_client_disconnected}
use comp_p.Rpc.Untouched.{left-SameReplies}
use comp_p.Server.Clients.{Released, nothing_released, close_client}
use comp_p.Service.{Service, put, world_of, with_world}
use comp_p.Service.Ledger.{Ledger, Step, remove, leave, set_disconnected, close_fds, Reach, later}

pub put_self {ℓ} : {A : Type ℓ} (k : ℕ) (v : A) (f : ℕ → A) → put k v f k ≡ v
unfolding put
put_self k v f = rw ((==_iff k k).1 refl) refl

pub put-put {ℓ} : {A : Type ℓ} (k : ℕ) (v w : A) (f : ℕ → A) → put k v (put k w f) ≡ put k v f
unfolding put
put-put k v w f = fun_ext (λ j. by_key j (Bool-cases (j == k)))
  where
    by_key : (j : ℕ) → ((j == k) ≡ true) ⊎ ((j == k) ≡ false) → put k v (put k w f) j ≡ put k v f j
    by_key j (inl same) = rw same refl
    by_key j (inr other) = rw other refl

pub put_same {ℓ} : {A : Type ℓ} (k : ℕ) (f : ℕ → A) → put k (f k) f ≡ f
unfolding put
put_same k f = fun_ext (λ j. by_key j (Bool-cases (j == k)))
  where
    by_key : (j : ℕ) → ((j == k) ≡ true) ⊎ ((j == k) ≡ false) → put k (f k) f j ≡ f j
    by_key j (inl same) = rw same (ap f (sym ((==_iff j k).0 same)))
    by_key j (inr other) = rw other refl

-- The service after the main thread has worked on that client.
abbrev pub in_service : Service → ℕ → World → Threadpool → Service
in_service s pid w pool = record (with_world pid w s) { pool = pool }

-- A change of the client and its world, in the service.
in_service-world_of :
    (s : Service) (pid : ℕ) (w : World) (pool : Threadpool)
    (change : World × Threadpool → World × Threadpool)
    → let now = in_service s pid w pool in
      let (w', pool') = change (world_of now pid, pool) in
      in_service now pid w' pool' ≡ in_service s pid (change (w, pool)).0 (change (w, pool)).1
in_service-world_of s pid w pool change =
    ap
      (λ c.
        let (w', pool') = change (record w { client = c }, pool) in
        in_service (in_service s pid w pool) pid w' pool')
      (put_self pid w.client s.clients)
    ∙ ap (λ f. record (in_service s pid (change (w, pool)).0 (change (w, pool)).1) { clients = f })
        (put-put pid (change (w, pool)).0.client w.client s.clients)

-- The main thread at work on the client of that pid, from the state `s` on.
module _ (auth : Option AuthDb) (handles : HandleStore) (clients : ℕ → ClientState) (s : Service)
    (pid : ℕ) where
  -- The service comes to the state with this world and this pool.
  pub record IsReached (w : World) (pool : Threadpool) : Type 0 where
    pub pid_of : w.client.client_pid ≡ pid
    pub ledger : Ledger
    pub reach : Reach auth handles clients ledger (in_service s pid w pool)

  -- One step.
  pub stepped :
      (w : World) (pool : Threadpool) (change : World × Threadpool → World × Threadpool)
      (l' : IsReached w pool → Ledger)
      → (change (w, pool)).0.client.client_pid ≡ w.client.client_pid
      → ((r : IsReached w pool)
          → let now = in_service s pid w pool in
            let (w', pool') = change (world_of now pid, pool) in
            Step r.ledger now (l' r) (in_service now pid w' pool'))
      → IsReached w pool
      → IsReached (change (w, pool)).0 (change (w, pool)).1
  stepped w pool change l' same step r = record {
    pid_of = same ∙ r.pid_of;
    ledger = l' r;
    reach =
        subst (Reach auth handles clients (l' r)) (in_service-world_of s pid w pool change)
          (later r.reach (step r));
  }

  pub reached :
      (w : World) (pool : Threadpool) {l : Ledger}
      → w.client.client_pid ≡ pid
      → Reach auth handles clients l (in_service s pid w pool)
      → IsReached w pool
  reached w pool {l} same r = record { pid_of = same; ledger = l; reach = r }

  removed-IsReached :
      (w : World) (pool : Threadpool) (k : ℕ)
      → k ≡ pid
      → IsReached w pool
      → IsReached w (threadpool_remove_client pool k)
  removed-IsReached w pool k same r =
      rw same (reached w (threadpool_remove_client pool pid) r.pid_of (later r.reach (remove pid)))

  pub either-IsReached :
      {X : Type 0} (w_of : X → World) (pool_of : X → Threadpool) (b : Bool) (x y : X)
      → IsReached (w_of x) (pool_of x)
      → IsReached (w_of y) (pool_of y)
      → IsReached (w_of (if b then x else y)) (pool_of (if b then x else y))
  either-IsReached w_of pool_of true x y hx hy = hx
  either-IsReached w_of pool_of false x y hx hy = hy

  pub close_client-IsReached :
      (now : ℕ) (w : World) (pool : Threadpool)
      → IsReached w pool
      → IsReached (close_client now w pool).0 (close_client now w pool).1
  unfolding close_client
  close_client-IsReached now w pool r =
      either-IsReached (λ (x : World × Threadpool × Released). x.0)
        (λ (x : World × Threadpool × Released). x.1) w.client.disconnected
        (w, pool, nothing_released) (_, _, _) r closed
    where
      out : World
      out = rpc_client_disconnected now w

      marked : World
      marked = record out { client = record out.client { disconnected = true } }

      left : IsReached out pool
      left =
          stepped w pool (λ x. (rpc_client_disconnected now x.0, x.1)) (λ x. x.ledger)
            (left-SameReplies now w).pid (λ x. leave now pid) r

      set : IsReached marked pool
      set =
          stepped out pool
            (λ x. (record x.0 { client = record x.0.client { disconnected = true } }, x.1))
            (λ x. x.ledger) refl (λ x. set_disconnected pid) left

      removed : IsReached marked (threadpool_remove_client pool w.client.client_pid)
      removed = removed-IsReached marked pool w.client.client_pid r.pid_of set

      closed :
          IsReached
            (record marked {
              client = record marked.client { fifo_c2s_fd = none; fifo_s2c_fd = none };
            })
            (threadpool_remove_client pool w.client.client_pid)
      closed =
          stepped marked (threadpool_remove_client pool w.client.client_pid)
            (λ x. (
              record x.0 { client = record x.0.client { fifo_c2s_fd = none; fifo_s2c_fd = none } },
              x.1,
            ))
            (λ x. x.ledger) refl (λ x. close_fds pid) removed
