-- ===== src/Server/Boot.antt =====
-- server_main.c, the start of main: what its loop starts with.
use comp_p.Common.{
  ℕ, ◌≡◌, refl, sym, ap, ◌∙◌, Bool, true, List, [], Option, none, some, Bytes, Bool-cases,
  Option-cases, inl, inr, arith,
}
use comp_p.Auth.{AuthDb}
use comp_p.Handles.{HandleStore}
use comp_p.ServerCommon.{zero_client}
use comp_p.Threadpool.Queues.{threadpool_create}
use comp_p.Server.Clients.{nothing_released}
use comp_p.Threadpool.{Threadpool}
use comp_p.Threadpool.Life.{Resources, create_pool}
use comp_p.Server.Start.{usage, returns_1, serves, with_pool, server_start}
use comp_p.Server.Clients.{parse_arguments}
use comp_p.Auth.{auth_load}
use comp_p.Server.Main.{Server}

-- What main comes to its loop with.
abbrev pub first_server : AuthDb → HandleStore → Server
first_server db store = record {
  clients = [];
  world = record { auth = some db; handles = store; client = zero_client; log = [] };
  pool = threadpool_create;
  released = nothing_released;
}

-- The pool that create_pool makes is empty.
create_pool-threadpool_create :
    (os : Resources) (n : ℕ) (has_handler : Bool) (pool : Threadpool)
    → (create_pool os n has_handler).0 ≡ some pool
    → pool ≡ threadpool_create
unfolding create_pool
create_pool-threadpool_create os n has_handler pool h = ground arith

serves_eq : {a b : Server} → serves a ≡ serves b → a ≡ b
serves_eq e = cc

with_pool-serves :
    (auth : Option AuthDb) (store : Option HandleStore) (pool : Option Threadpool) (first : Server)
    → ((p : Threadpool) → pool ≡ some p → p ≡ threadpool_create)
    → with_pool auth store pool ≡ serves first
    → (db : AuthDb) × (handles : HandleStore) × (first_server db handles ≡ first)
unfolding with_pool
with_pool-serves none store pool first made h = absurd (cc)
with_pool-serves (some db) none pool first made h = absurd (cc)
with_pool-serves (some db) (some handles) none first made h = absurd (cc)
with_pool-serves (some db) (some handles) (some pool) first made h = (
  db,
  handles,
  ap (λ p. record (first_server db handles) { pool = p }) (sym (made pool refl)) ∙ serves_eq h,
)

pub server_start-serves :
    (signals_ok : Bool) (calloc_ok : ℕ → Bool) (users_file : Option Bytes)
    (store : Option HandleStore) (os : Resources) (arguments : List Bytes) (first : Server)
    → server_start signals_ok calloc_ok users_file store os arguments ≡ serves first
    → (db : AuthDb) × (handles : HandleStore) × (first_server db handles ≡ first)
unfolding server_start
server_start-serves signals_ok calloc_ok users_file store os arguments first h =
    elim (Option-cases (parse_arguments arguments)) [
      | inl bad ↦ absurd (no_server (rw (bad, server_start) at h))
      | inr (n, size) ↦ elim (Bool-cases signals_ok) [
        | inr no_signals ↦ absurd (no_return (rw (size, no_signals, server_start) at h))
        | inl signals ↦
            with_pool-serves (auth_load calloc_ok users_file) store (create_pool os n true).0 first
              (create_pool-threadpool_create os n true) (rw (size, signals, server_start) at h)
      ]
    ]
  where
    no_server : usage ≡ serves first → ⊥
    no_server e = cc

    no_return : returns_1 ≡ serves first → ⊥
    no_return e = cc
