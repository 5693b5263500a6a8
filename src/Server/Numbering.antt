-- ===== src/Server/Numbering.antt =====
-- server_main.c with threadpool.c, the lines of a client as requests in its queue.
use mathlib.Core.List.{append-nil, append_assoc}
use comp_p.Common.{
  ℕ, suc, ◌+◌, ◌<◌, ◌≡◌, refl, sym, ap, ◌∙◌, true, false, List, [], ◌∷◌, ◌++◌, some, Bytes, length,
  arith,
}
use comp_p.CString.{c_str}
use comp_p.ServerCommon.{ClientState, Request, inc64, u64_mod}
use comp_p.Threadpool.{ClientQueue, Threadpool}
use comp_p.Threadpool.Queues.{find_client_queue, put_queue, enqueue, request_of, threadpool_submit}
use comp_p.Server.Clients.{submit_line, submit_lines}

-- The lines as requests, from a number on.
unfoldable pub requests_from : ℕ → ℕ → List Bytes → List Request
requests_from pid seq [] = []
requests_from pid seq (line ∷ lines) =
    record { client = pid; request_seq_num = seq; rpc_line = c_str line }
    ∷ requests_from pid (suc seq) lines

-- The pool takes the requests of the client, whose queue is q.
pub record IsOpen (p : Threadpool) (c : ClientState) (q : ClientQueue) : Type 0 where
  pub up : p.shutting_down ≡ false
  pub found : find_client_queue c.client_pid p.clients ≡ some q
  pub active : q.active ≡ true
  pub connected : c.disconnected ≡ false

find-same :
    (pid : ℕ) (qs : List ClientQueue) (q : ClientQueue)
    → find_client_queue pid qs ≡ some q
    → q.client ≡ pid
unfolding find_client_queue
find-same pid [] q e = absurd (cc)
find-same pid (x ∷ qs) q e = ground (arith, find-same pid qs q)

find-put :
    (pid : ℕ) (qs : List ClientQueue) (q r : ClientQueue)
    → r.client ≡ pid
    → find_client_queue pid qs ≡ some q
    → find_client_queue pid (put_queue r qs) ≡ some r
unfolding find_client_queue put_queue
find-put pid [] q r same e = absurd (cc)
find-put pid (x ∷ qs) q r same e = ground (arith, find-put pid qs q r same)

-- One line.
submit_line-IsOpen :
    (p : Threadpool) (c : ClientState) (q : ClientQueue) (line : Bytes)
    → IsOpen p c q
    → submit_line (true, true, true) (p, c) line ≡ (
      enqueue p q (request_of c (c_str line)),
      record c { requests_received = inc64 c.requests_received },
    )
unfolding submit_line threadpool_submit
submit_line-IsOpen p c q line o = simp (o.up, o.found, o.active, o.connected)

enqueue-IsOpen :
    (p : Threadpool) (c : ClientState) (q : ClientQueue) (line : Bytes)
    → IsOpen p c q
    → (q' : ClientQueue) × IsOpen
        (enqueue p q (request_of c (c_str line)))
        (record c { requests_received = inc64 c.requests_received })
        q'
      × (q'.requests ≡ q.requests ++ (request_of c (c_str line) ∷ []))
unfolding enqueue
enqueue-IsOpen p c q line o =
    let q' : ClientQueue = record q {
      requests = q.requests ++ (request_of c (c_str line) ∷ []);
      queued_count = inc64 q.queued_count;
    } in
    (
      q',
      record {
        up = o.up;
        active = o.active;
        connected = o.connected;
        found =
            find-put c.client_pid p.clients q q' (find-same c.client_pid p.clients q o.found)
              o.found;
      },
      refl,
    )

-- While the pool takes requests and no allocation fails, the lines of a client go to the end of its
-- queue in their order, with the numbers from requests_received on, one after another.
pub submit_lines-requests_from :
    (k : ℕ) (p : Threadpool) (c : ClientState) (q : ClientQueue) (lines : List Bytes)
    → IsOpen p c q
    → c.requests_received + length lines < u64_mod
    → let (p', c') = submit_lines (λ n. (true, true, true)) k (p, c) lines in
      (q' : ClientQueue) × IsOpen p' c' q'
      × (q'.requests ≡ q.requests ++ requests_from c.client_pid c.requests_received lines)
      × (c'.requests_received ≡ c.requests_received + length lines)
unfolding submit_lines requests_from request_of
submit_lines-requests_from k p c q [] o room = (q, o, sym (append-nil q.requests), omega arith)
submit_lines-requests_from k p c q (line ∷ lines) o room =
    let (q1, o1, e1) = enqueue-IsOpen p c q line o in
    let p1 = enqueue p q (request_of c (c_str line)) in
    let next : inc64 c.requests_received ≡ suc c.requests_received = omega arith in
    let c1 = record c { requests_received = inc64 c.requests_received } in
    let (q', o', e, n) =
      submit_lines-requests_from (suc k) p1 c1 q1 lines o1 (omega (arith, next)) in
    rw (submit_lines, submit_line-IsOpen p c q line o)
      (
        q',
        o',
        e
            ∙ (ap (λ l. l ++ requests_from c.client_pid (inc64 c.requests_received) lines) e1
                ∙ (append_assoc q.requests (request_of c (c_str line) ∷ [])
                      (requests_from c.client_pid (inc64 c.requests_received) lines)
                    ∙ ap
                        (λ m.
                          q.requests
                          ++ (request_of c (c_str line) ∷ requests_from c.client_pid m lines))
                        next)),
        omega (arith, n, next),
      )
