-- ===== src/Service/Main.antt =====
-- server_main.c, close_client, cleanup_inactive_clients and read_client_requests: what the main thread
-- does with a client are steps of the service.
use comp_p.Common.{
  ℕ, suc, ◌≡◌, refl, ap, Bool, true, false, Option, List, [], ◌∷◌, ◌++◌, Bytes, inl, inr,
}
use comp_p.Auth.{AuthDb}
use comp_p.CString.{c_str}
use comp_p.Handles.{HandleStore}
use comp_p.ServerCommon.{ClientState}
use comp_p.Threadpool.{Threadpool}
use comp_p.Threadpool.Queues.{threadpool_submit}
use comp_p.Rpc.{World}
use comp_p.Server.Framing.{process_buffered_lines}
use comp_p.Server.Clients.{
  Released, nothing_released, close_client, submit_line, submit_lines, cleanup_client, is_inactive,
  Read, got, ended, interrupted, would_block, broken, take_bytes, Reading, read_client_requests,
}
use comp_p.Service.{Service}
use comp_p.Service.Ledger.{submit, touch}
use comp_p.Service.Aside.{submit-IsSubmission}
use comp_p.Service.Reached.{IsReached, stepped, either-IsReached, close_client-IsReached}

-- The main thread at work on the client of that pid, from the state `s` on.
module _ (auth : Option AuthDb) (handles : HandleStore) (clients : ℕ → ClientState) (s : Service)
    (pid : ℕ) where
  pub cleanup_client-IsReached :
      (now : ℕ) (gone : Bool) (w : World) (pool : Threadpool)
      → IsReached auth handles clients s pid w pool
      → IsReached auth handles clients s pid
          (cleanup_client now gone w pool).0
          (cleanup_client now gone w pool).1
  unfolding cleanup_client
  cleanup_client-IsReached now gone w pool r =
      either-IsReached auth handles clients s pid (λ (x : World × Threadpool × Released). x.0)
        (λ (x : World × Threadpool × Released). x.1) (is_inactive now gone w.client)
        (close_client now w pool) (w, pool, nothing_released)
        (close_client-IsReached auth handles clients s pid now w pool r) r

  submitted-pid :
      (request_ok node_ok : Bool) (pool : Threadpool) (c : ClientState) (line : Bytes)
      → (threadpool_submit request_ok node_ok pool c line).2.client_pid ≡ c.client_pid
  submitted-pid request_ok node_ok pool c line =
      elim (submit-IsSubmission request_ok node_ok pool c line) [
        | inl (one, next) ↦ ap (λ (x : ClientState). x.client_pid) next
        | inr (nothing, still) ↦ ap (λ (x : ClientState). x.client_pid) still
      ]

  submit_line-IsReached :
      (allocation : Bool × Bool × Bool) (w : World) (pool : Threadpool) (line : Bytes)
      → IsReached auth handles clients s pid w pool
      → let t = submit_line allocation (pool, w.client) line in
        IsReached auth handles clients s pid (record w { client = t.1 }) t.0
  unfolding submit_line
  submit_line-IsReached (false, request_ok, node_ok) w pool line r = r
  submit_line-IsReached (true, request_ok, node_ok) w pool line r =
      stepped auth handles clients s pid w pool
        (λ x.
          let (status, p, c) = threadpool_submit request_ok node_ok x.1 x.0.client (c_str line) in
          (record x.0 { client = c }, p))
        _ (submitted-pid request_ok node_ok pool w.client (c_str line))
        (λ x. submit request_ok node_ok pid (c_str line)) r

  submit_lines-IsReached :
      (allocations : ℕ → Bool × Bool × Bool) (k : ℕ) (w : World) (pool : Threadpool)
      (lines : List Bytes)
      → IsReached auth handles clients s pid w pool
      → let t = submit_lines allocations k (pool, w.client) lines in
        IsReached auth handles clients s pid (record w { client = t.1 }) t.0
  unfolding submit_lines
  submit_lines-IsReached allocations k w pool [] r = r
  submit_lines-IsReached allocations k w pool (line ∷ lines) r =
      let t = submit_line (allocations k) (pool, w.client) line in
      submit_lines-IsReached allocations (suc k) (record w { client = t.1 }) t.0 lines
        (submit_line-IsReached (allocations k) w pool line r)

  take_bytes-IsReached :
      (allocations : ℕ → Bool × Bool × Bool) (now : ℕ) (w : World) (pool : Threadpool)
      (buffer : Bytes)
      → IsReached auth handles clients s pid w pool
      → IsReached auth handles clients s pid
          (take_bytes allocations now w pool buffer).0
          (take_bytes allocations now w pool buffer).1
  unfolding take_bytes
  take_bytes-IsReached allocations now w pool buffer r =
      submit_lines-IsReached allocations 0
        (record w { client = record w.client { last_activity = now } }) pool
        (process_buffered_lines buffer).0
        (stepped auth handles clients s pid w pool
          (λ x. (record x.0 { client = record x.0.client { last_activity = now } }, x.1))
          (λ x. x.ledger) refl (λ x. touch now pid) r)

  abbrev Comes : Reading → Type 0
  Comes x = IsReached auth handles clients s pid x.0 x.1

  -- What read_client_requests does after a call of read.
  after_read-Comes :
      (closed stopped again : Reading) (more : Bytes → Reading)
      → Comes closed
      → Comes stopped
      → Comes again
      → ((chunk : Bytes) → Comes (more chunk))
      → (r : Read)
      → Comes (elim r [
        | got chunk ↦ more chunk
        | ended ↦ closed
        | interrupted ↦ again
        | would_block ↦ stopped
        | broken ↦ closed
      ])
  after_read-Comes closed stopped again more hc hs ha hm (got chunk) = hm chunk
  after_read-Comes closed stopped again more hc hs ha hm ended = hc
  after_read-Comes closed stopped again more hc hs ha hm interrupted = ha
  after_read-Comes closed stopped again more hc hs ha hm would_block = hs
  after_read-Comes closed stopped again more hc hs ha hm broken = hc

  pub read_client_requests-IsReached :
      (allocations : ℕ → Bool × Bool × Bool) (now : ℕ) (reads : List Read) (w : World)
      (pool : Threadpool) (buffer : Bytes)
      → IsReached auth handles clients s pid w pool
      → Comes (read_client_requests allocations now reads w pool buffer)
  unfolding read_client_requests
  read_client_requests-IsReached allocations now [] w pool buffer r = r
  read_client_requests-IsReached allocations now (read ∷ reads) w pool buffer r =
      let closed = close_client now w pool in
      let stopped : Reading = (w, pool, buffer, nothing_released) in
      either-IsReached auth handles clients s pid (λ (x : Reading). x.0) (λ (x : Reading). x.1)
        w.client.disconnected stopped _ r
        (after_read-Comes (closed.0, closed.1, buffer, closed.2) stopped
          (read_client_requests allocations now reads w pool buffer)
          (λ chunk.
            let (w1, pool1, rest) = take_bytes allocations now w pool (buffer ++ chunk) in
            read_client_requests allocations now reads w1 pool1 rest)
          (close_client-IsReached auth handles clients s pid now w pool r) r
          (read_client_requests-IsReached allocations now reads w pool buffer r)
          (λ chunk.
            let (w1, pool1, rest) = take_bytes allocations now w pool (buffer ++ chunk) in
            read_client_requests-IsReached allocations now reads w1 pool1 rest
              (take_bytes-IsReached allocations now w pool (buffer ++ chunk) r))
          read)
