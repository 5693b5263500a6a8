-- ===== src/Server/Accept.antt =====
-- server_main.c, the ways in which accept_client ends.
use comp_p.Common.{
  ℕ, ◌≡◌, refl, sym, ap, ◌∙◌, subst, Bool, true, false, not, ◌&&◌, ◌||◌, List, [], ◌∷◌, ◌++◌, none,
  some, ◌==◌, if◌then◌else◌, Bool-cases, Option-cases, ◌⊎◌, inl, inr, arith,
}
use comp_p.CString.Number.{pos, negsuc}
use comp_p.Threadpool.{Threadpool, ClientQueue}
use comp_p.Threadpool.Queues.{
  find_client_queue, threadpool_register_client, append_queue, new_queue,
}
use comp_p.ServerCommon.{zero_client}
use comp_p.Server.{ServerClient}
use comp_p.Server.Clients.{
  find_client, nothing_released, opened_fd, Opening, Accepted, new_client, refused, is_ok, enlist,
  open_fifos, accept_client,
}

-- The descriptors that the call opens on its way.
abbrev pub opened_fds : Opening → List ℕ
opened_fds os =
    if os.fifos_ok && (os.ready_ok && os.paths_ok)
    then elim os.c2s [ none ↦ [] | some c2s ↦ c2s ∷ opened_fd os.s2c ]
    else []

-- The three ways in which accept_client ends.
pub data AcceptedAs (os : Opening) (pid : ℕ) (clients : List ServerClient) (pool : Threadpool)
    (a : Accepted) : Type 0 where
  -- the pid is 0 or the client is known
  ignored :
      a.rc ≡ pos 0
      → a.clients ≡ clients
      → a.pool ≡ pool
      → a.released ≡ nothing_released
      → AcceptedAs os pid clients pool a
  -- all that was opened is closed again
  turned_down :
      a.rc ≡ negsuc 0
      → a.clients ≡ clients
      → a.pool ≡ pool
      → a.released.closed ≡ opened_fds os
      → AcceptedAs os pid clients pool a
  -- the client is new and the first of the list, and its queue is in the pool
  enlisted :
      (c2s s2c : ℕ)
      → os.c2s ≡ some c2s
      → os.s2c ≡ some s2c
      → a.rc ≡ pos 0
      → a.clients
        ≡ record {
          state = record zero_client {
            client_pid = pid;
            fifo_c2s_fd = some c2s;
            fifo_s2c_fd = some s2c;
            last_activity = os.time;
          };
          read_buffer = [];
        }
          ∷ clients
      → find_client pid clients ≡ none
      → a.pool ≡ (threadpool_register_client os.queue_ok pool pid).1
      → find_client_queue pid a.pool.clients ≡ some (new_queue pid)
      → a.released ≡ nothing_released
      → AcceptedAs os pid clients pool a

find-append :
    (pid : ℕ) (qs : List ClientQueue) (q : ClientQueue)
    → q.client ≡ pid
    → find_client_queue pid qs ≡ none
    → find_client_queue pid (qs ++ (q ∷ [])) ≡ some q
unfolding find_client_queue
find-append pid [] q same miss = ground arith
find-append pid (x ∷ qs) q same miss = ground (arith, find-append pid qs q same)

-- A registration makes a queue, or changes nothing.
register_cases :
    (calloc_ok : Bool) (pool : Threadpool) (pid : ℕ)
    → ((is_ok (threadpool_register_client calloc_ok pool pid).0 ≡ false)
        × ((threadpool_register_client calloc_ok pool pid).1 ≡ pool))
      ⊎ ((is_ok (threadpool_register_client calloc_ok pool pid).0 ≡ true)
          × (find_client_queue pid (threadpool_register_client calloc_ok pool pid).1.clients
              ≡ some (new_queue pid)))
unfolding threadpool_register_client is_ok append_queue
register_cases false pool pid = inl (refl, refl)
register_cases true pool pid = elim (Option-cases (find_client_queue pid pool.clients)) [
  | inr (q, hit) ↦ rw (hit, threadpool_register_client) (inl (refl, refl))
  | inl miss ↦
      rw (miss, threadpool_register_client)
        (inr (refl, find-append pid pool.clients (new_queue pid) (unfold new_queue in refl) miss))
]

enlist-AcceptedAs :
    (os : Opening) (pid c2s s2c : ℕ) (clients : List ServerClient) (pool : Threadpool)
    → os.c2s ≡ some c2s
    → os.s2c ≡ some s2c
    → opened_fds os ≡ c2s ∷ s2c ∷ []
    → find_client pid clients ≡ none
    → AcceptedAs os pid clients pool (enlist os pid c2s s2c clients pool)
unfolding enlist new_client
enlist-AcceptedAs os pid c2s s2c clients pool has_c2s has_s2c fds miss =
    elim (Bool-cases (not os.calloc_ok || not os.mutex_ok)) [
      | inl bad ↦ rw (bad, enlist) (turned_down refl refl refl (sym fds))
      | inr fine ↦ elim (register_cases os.queue_ok pool pid) [
        | inl (no_queue, same) ↦ rw (fine, no_queue, enlist) (turned_down refl refl same (sym fds))
        | inr (queue, found) ↦
            rw (fine, queue, enlist)
              (enlisted c2s s2c has_c2s has_s2c refl refl miss refl found refl)
      ]
    ]

as_open :
    (os : Opening) (fds : List ℕ)
    → (os.fifos_ok && (os.ready_ok && os.paths_ok)) ≡ true
    → (elim os.c2s as (λ x. List ℕ) [ none ↦ [] | some c2s ↦ c2s ∷ opened_fd os.s2c ]) ≡ fds
    → opened_fds os ≡ fds
as_open os fds ready e =
    ap
      (λ b.
        if b
        then elim os.c2s as (λ x. List ℕ) [ none ↦ [] | some c2s ↦ c2s ∷ opened_fd os.s2c ]
        else [])
      ready
    ∙ e

open_fifos-AcceptedAs :
    (os : Opening) (pid : ℕ) (clients : List ServerClient) (pool : Threadpool)
    → (os.fifos_ok && (os.ready_ok && os.paths_ok)) ≡ true
    → find_client pid clients ≡ none
    → AcceptedAs os pid clients pool (open_fifos os pid clients pool)
unfolding open_fifos opened_fd
open_fifos-AcceptedAs os pid clients pool ready miss = elim (Option-cases os.c2s) [
  | inl no_c2s ↦
      subst (AcceptedAs os pid clients pool) {x = refused [] pid clients pool}
        (sym (simp (no_c2s, open_fifos)))
        (turned_down refl refl refl (sym (as_open os [] ready (simp no_c2s))))
  | inr (c2s, has_c2s) ↦ elim (Option-cases os.s2c) [
    | inl no_s2c ↦
        subst (AcceptedAs os pid clients pool) {x = refused (c2s ∷ []) pid clients pool}
          (sym (simp (has_c2s, no_s2c, open_fifos)))
          (turned_down refl refl refl
            (sym (as_open os (c2s ∷ []) ready (simp (has_c2s, no_s2c, opened_fd)))))
    | inr (s2c, has_s2c) ↦
        subst (AcceptedAs os pid clients pool) {x = enlist os pid c2s s2c clients pool}
          (sym (simp (has_c2s, has_s2c, open_fifos)))
          (enlist-AcceptedAs os pid c2s s2c clients pool has_c2s has_s2c
            (as_open os (c2s ∷ s2c ∷ []) ready (simp (has_c2s, has_s2c, opened_fd))) miss)
  ]
]

not_open :
    (os : Opening) → (os.fifos_ok && (os.ready_ok && os.paths_ok)) ≡ false → opened_fds os ≡ []
not_open os h =
    ap
      (λ b.
        if b
        then elim os.c2s as (λ x. List ℕ) [ none ↦ [] | some c2s ↦ c2s ∷ opened_fd os.s2c ]
        else [])
      h

start-AcceptedAs :
    (os : Opening) (pid : ℕ) (clients : List ServerClient) (pool : Threadpool) (f r p : Bool)
    → os.fifos_ok ≡ f
    → os.ready_ok ≡ r
    → os.paths_ok ≡ p
    → find_client pid clients ≡ none
    → AcceptedAs os pid clients pool (
        if not f
        then record { rc = negsuc 0; clients = clients; pool = pool; released = nothing_released }
        else if not r || not p
        then refused [] pid clients pool
        else open_fifos os pid clients pool)
start-AcceptedAs os pid clients pool false r p ef er ep miss =
    turned_down refl refl refl (sym (not_open os (rw ef refl)))
start-AcceptedAs os pid clients pool true false p ef er ep miss =
    turned_down refl refl refl (sym (not_open os (rw (ef, er) refl)))
start-AcceptedAs os pid clients pool true true false ef er ep miss =
    turned_down refl refl refl (sym (not_open os (rw (ef, er, ep) refl)))
start-AcceptedAs os pid clients pool true true true ef er ep miss =
    open_fifos-AcceptedAs os pid clients pool (rw (ef, er, ep) refl) miss

pub accept_client-AcceptedAs :
    (os : Opening) (pid : ℕ) (clients : List ServerClient) (pool : Threadpool)
    → AcceptedAs os pid clients pool (accept_client os pid clients pool)
unfolding accept_client
accept_client-AcceptedAs os pid clients pool = elim (Bool-cases (pid == 0)) [
  | inl no_pid ↦ rw (no_pid, accept_client) (ignored refl refl refl refl)
  | inr has_pid ↦ elim (Option-cases (find_client pid clients)) [
    | inr (c, hit) ↦ rw (has_pid, hit, accept_client) (ignored refl refl refl refl)
    | inl miss ↦
        rw (has_pid, miss, accept_client)
          (start-AcceptedAs os pid clients pool os.fifos_ok os.ready_ok os.paths_ok refl refl refl
            miss)
  ]
]
