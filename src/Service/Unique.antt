-- ===== src/Service/Unique.antt =====
-- threadpool.c and rpc.c: each request of a client has a number of its own.
use comp_p.Common.{
  ℕ, suc, ◌+◌, ◌<◌, ◌≤◌, ◌≡◌, ◌≢◌, ◌⊎◌, inl, inr, refl, sym, ap, subst, ◌∙◌, Bool, ◌&&◌, ◌==◌, List,
  ◌∷◌, ◌++◌, if◌then◌else◌, Bytes, length, arith,
}
use comp_p.ServerCommon.{ClientState, Request, inc64, u64_mod}
use comp_p.Threadpool.{Threadpool, Status}
use comp_p.Threadpool.Queues.{threadpool_submit, request_of}
use comp_p.Threadpool.Requests.{accepted_by, tally}
use comp_p.Rpc.Request.{rpc_client_disconnected}
use comp_p.Rpc.Untouched.{left-SameReplies}
use comp_p.Service.{Service, put, world_of, world_after, worker_response, deliver}
use comp_p.Service.Ledger.{
  Ledger, Step, register, submit, remove, leave, set_disconnected, close_fds, open_client, touch,
  shutdown, take_next, handle, wake, reply,
}
use comp_p.Service.Aside.{
  put_at, SameNumbers, put-SameNumbers, handled-SameReplies, woken-SameReplies, deliver-SameNumbers,
  IsSubmission, submit-IsSubmission,
}

-- The requests of a client with that number.
abbrev pub has_number : ℕ → ℕ → Request → Bool
has_number pid seq r = r.client == pid && r.request_seq_num == seq

-- The pool has accepted at most one request of a client with each number below requests_received,
-- and none with another number.
pub record IsNumbered (l : Ledger) (cs : ℕ → ClientState) (pid : ℕ) : Type 0 where
  pub pid_of : (cs pid).client_pid ≡ pid
  pub counted : (cs pid).requests_received ≤ length l.accepted
  pub once : (seq : ℕ) → tally (has_number pid seq) l.accepted ≤ 1
  pub below :
      (seq : ℕ) → (cs pid).requests_received ≤ seq → tally (has_number pid seq) l.accepted ≡ 0

same-IsNumbered :
    (l : Ledger) (cs ds : ℕ → ClientState) (pid : ℕ)
    → SameNumbers cs ds
    → IsNumbered l cs pid
    → IsNumbered l ds pid
same-IsNumbered l cs ds pid h n = record {
  pid_of = (h pid).1 ∙ n.pid_of;
  counted = omega (arith, (h pid).0, n.counted);
  once = n.once;
  below = λ seq high. n.below seq (omega (arith, (h pid).0, high));
}

tally_one :
    (picks : Request → Bool) (r : Request) (rs : List Request)
    → tally picks (r ∷ rs) ≡ (if picks r then suc (tally picks rs) else tally picks rs)
unfolding tally
tally_one picks r rs = refl

-- A request with the client's next number comes to the ledger.
added-IsNumbered :
    (l : Ledger) (cs : ℕ → ClientState) (k pid : ℕ) (d : ClientState) (r : Request)
    → r.client ≡ k
    → r.request_seq_num ≡ (cs k).requests_received
    → d.client_pid ≡ k
    → d.requests_received ≡ suc (cs k).requests_received
    → IsNumbered l cs pid
    → IsNumbered (record l { accepted = r ∷ l.accepted }) (put k d cs) pid
added-IsNumbered l cs k pid d r owner seq_num d_pid d_received n = by_pid (put_at k pid d cs)
  where
    by_pid :
        ((pid ≡ k) × (put k d cs pid ≡ d)) ⊎ ((pid ≢ k) × (put k d cs pid ≡ cs pid))
        → IsNumbered (record l { accepted = r ∷ l.accepted }) (put k d cs) pid
    by_pid (inl (same, at)) =
        let own : (cs pid).requests_received ≡ (cs k).requests_received =
          ap (λ j. (cs j).requests_received) same in
        record {
          pid_of = ap (λ (x : ClientState). x.client_pid) at ∙ (d_pid ∙ sym same);
          counted =
              omega (
                arith,
                ap (λ (x : ClientState). x.requests_received) at,
                d_received,
                own,
                n.counted,
              );
          once = λ seq. ground (
            arith,
            tally_one (has_number pid seq) r l.accepted,
            n.once seq,
            n.below seq,
            seq_num,
            own,
          );
          below = λ seq high.
              let from : suc (cs k).requests_received ≤ seq =
                omega (arith, ap (λ (x : ClientState). x.requests_received) at, d_received, high) in
              ground (
                arith,
                tally_one (has_number pid seq) r l.accepted,
                n.below seq,
                seq_num,
                own,
                from,
              );
        }
    by_pid (inr (other, off)) = record {
      pid_of = ap (λ (x : ClientState). x.client_pid) off ∙ n.pid_of;
      counted = omega (arith, ap (λ (x : ClientState). x.requests_received) off, n.counted);
      once = λ seq.
          ground (arith, tally_one (has_number pid seq) r l.accepted, n.once seq, owner, other);
      below = λ seq high.
          let from : (cs pid).requests_received ≤ seq =
            omega (arith, ap (λ (x : ClientState). x.requests_received) off, high) in
          ground
            (arith, tally_one (has_number pid seq) r l.accepted, n.below seq from, owner, other);
    }

submitted-IsNumbered :
    (l : Ledger) (cs : ℕ → ClientState) (k pid : ℕ) (line : Bytes)
    (t : Status × Threadpool × ClientState)
    → length l.accepted + 1 < u64_mod
    → IsSubmission (cs k) (request_of (cs k) line) t
    → IsNumbered l cs k
    → IsNumbered l cs pid
    → IsNumbered
        (record l { accepted = accepted_by t.0 (request_of (cs k) line) ++ l.accepted })
        (put k t.2 cs)
        pid
unfolding request_of
submitted-IsNumbered l cs k pid line t room (inl (one, next)) own n =
    let inc : inc64 (cs k).requests_received ≡ suc (cs k).requests_received =
      omega (arith, own.counted) in
    let d_pid : t.2.client_pid ≡ k = ap (λ (x : ClientState). x.client_pid) next ∙ own.pid_of in
    let d_received : t.2.requests_received ≡ suc (cs k).requests_received =
      ap (λ (x : ClientState). x.requests_received) next ∙ inc in
    subst (λ rs. IsNumbered (record l { accepted = rs ++ l.accepted }) (put k t.2 cs) pid) (sym one)
      (added-IsNumbered l cs k pid t.2 (request_of (cs k) line) own.pid_of refl d_pid d_received n)
submitted-IsNumbered l cs k pid line t room (inr (nothing, still)) own n =
    subst (λ rs. IsNumbered (record l { accepted = rs ++ l.accepted }) (put k t.2 cs) pid)
      (sym nothing)
      (same-IsNumbered l cs (put k t.2 cs) pid
        (put-SameNumbers k t.2 cs (
          ap (λ (x : ClientState). x.requests_received) still,
          ap (λ (x : ClientState). x.client_pid) still,
        ))
        n)

abbrev pub AllNumbered : Ledger → Service → Type 0
AllNumbered l s = (pid : ℕ) → IsNumbered l s.clients pid

pub Step-AllNumbered :
    {l : Ledger} {s : Service} {l' : Ledger} {s' : Service}
    → Step l s l' s'
    → length l.accepted + 1 < u64_mod
    → AllNumbered l s
    → AllNumbered l' s'
Step-AllNumbered (register calloc_ok pid) room n = n
Step-AllNumbered (submit {l} {s} request_ok node_ok k line) room n = λ pid.
    submitted-IsNumbered l s.clients k pid line
      (threadpool_submit request_ok node_ok s.pool (s.clients k) line) room
      (submit-IsSubmission request_ok node_ok s.pool (s.clients k) line) (n k) (n pid)
Step-AllNumbered (remove {l} {s} k) room n = λ pid. record {
  pid_of = (n pid).pid_of;
  counted = (n pid).counted;
  once = (n pid).once;
  below = (n pid).below;
}
Step-AllNumbered (leave {l} {s} now k) room n = λ pid.
    let h = left-SameReplies now (world_of s k) in
    same-IsNumbered l s.clients _ pid
      (put-SameNumbers k (rpc_client_disconnected now (world_of s k)).client s.clients
        (h.received, h.pid))
      (n pid)
Step-AllNumbered (set_disconnected {l} {s} k) room n =
    λ pid. same-IsNumbered l s.clients _ pid (put-SameNumbers k _ s.clients (refl, refl)) (n pid)
Step-AllNumbered (close_fds {l} {s} k) room n =
    λ pid. same-IsNumbered l s.clients _ pid (put-SameNumbers k _ s.clients (refl, refl)) (n pid)
Step-AllNumbered (open_client {l} {s} now k c2s s2c) room n =
    λ pid. same-IsNumbered l s.clients _ pid (put-SameNumbers k _ s.clients (refl, refl)) (n pid)
Step-AllNumbered (touch {l} {s} now k) room n =
    λ pid. same-IsNumbered l s.clients _ pid (put-SameNumbers k _ s.clients (refl, refl)) (n pid)
Step-AllNumbered shutdown room n = n
Step-AllNumbered (take_next r pool e) room n = n
Step-AllNumbered (handle {l} {s} env r o left right e result) room n = λ pid.
    let h = handled-SameReplies env (world_of s r.client) r.rpc_line o result in
    same-IsNumbered l s.clients _ pid
      (put-SameNumbers r.client (world_after o).client s.clients (h.received, h.pid)) (n pid)
Step-AllNumbered (wake {l} {s} env r id name next o left right e result) room n = λ pid.
    let h = woken-SameReplies env (world_of s r.client) id name next o result in
    same-IsNumbered l s.clients _ pid
      (put-SameNumbers r.client (world_after o).client s.clients (h.received, h.pid)) (n pid)
Step-AllNumbered (reply {l} {s} handler_ok copy_ok calls r response left right e) room n = λ pid.
    let sent = deliver calls r (worker_response handler_ok copy_ok response) s in
    let same =
      same-IsNumbered l s.clients sent.clients pid
        (deliver-SameNumbers calls r (worker_response handler_ok copy_ok response) s) (n pid) in
    record { pid_of = same.pid_of; counted = same.counted; once = same.once; below = same.below }
