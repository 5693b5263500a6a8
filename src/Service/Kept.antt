-- ===== src/Service/Kept.antt =====
-- threadpool.c and server_main.c: one client's responses stay in order, whatever a step does to it.
use comp_p.Common.{
  ℕ, ◌+◌, ◌<◌, ◌≤◌, ◌≡◌, ◌≢◌, ◌⊎◌, inl, inr, ◌∙◌, sym, ap, subst, false, List, ◌∷◌, ◌++◌, Option,
  none, some, Bytes, arith,
}
use comp_p.ServerCommon.{ClientState, Request, max_pending_responses, u64_mod}
use comp_p.Threadpool.{Threadpool, Status}
use comp_p.Threadpool.Response.{Write, send_ordered_response}
use comp_p.Rpc.Untouched.{SameReplies}
use comp_p.Service.{Service, put, deliver}
use comp_p.Service.Ledger.{Finished}
use comp_p.Service.Aside.{put_at, IsSubmission}
use comp_p.Service.Order.{response_to, IsOrdered, kept-IsOrdered, other-IsOrdered}
use comp_p.Service.Pending.{other_client, unanswered}
use comp_p.Service.Replied.{reply-IsOrdered}

-- A client that sends the requests of `d` instead of `c`, and keeps the rest.
pub put-IsOrdered :
    (pid k : ℕ) (fin : List Finished) (out : Bytes) (d : ClientState) (cs : ℕ → ClientState)
    → (cs k).requests_received ≤ d.requests_received
    → d.responses_sent ≡ (cs k).responses_sent
    → d.pending_responses ≡ (cs k).pending_responses
    → (d.disconnected ≡ false → (cs k).disconnected ≡ false)
    → IsOrdered pid fin out (cs pid)
    → IsOrdered pid fin out (put k d cs pid)
put-IsOrdered pid k fin out d cs more sent pending mark o = elim (put_at k pid d cs) [
  | inl (same, at) ↦ subst (IsOrdered pid fin out) (sym at) (
      kept-IsOrdered pid fin out (cs k) d more sent pending mark
        (subst (λ j. IsOrdered pid fin out (cs j)) same o))
  | inr (other, off) ↦ subst (IsOrdered pid fin out) (sym off) o
]

pub same-IsOrdered :
    (pid k : ℕ) (fin : List Finished) (out : Bytes) (d : ClientState) (cs : ℕ → ClientState)
    → SameReplies (cs k) d
    → IsOrdered pid fin out (cs pid)
    → IsOrdered pid fin out (put k d cs pid)
same-IsOrdered pid k fin out d cs h o =
    put-IsOrdered pid k fin out d cs (omega (arith, h.received)) h.sent h.pending
      (λ up. sym h.mark ∙ up) o

pub submitted-IsOrdered :
    (pid k : ℕ) (fin : List Finished) (out : Bytes) (r : Request)
    (t : Status × Threadpool × ClientState) (cs : ℕ → ClientState)
    → (cs k).requests_received + 1 < u64_mod
    → IsSubmission (cs k) r t
    → IsOrdered pid fin out (cs pid)
    → IsOrdered pid fin out (put k t.2 cs pid)
submitted-IsOrdered pid k fin out r t cs room (inl (one, next)) o =
    put-IsOrdered pid k fin out t.2 cs
      (omega (arith, room, ap (λ (x : ClientState). x.requests_received) next))
      (ap (λ (x : ClientState). x.responses_sent) next)
      (ap (λ (x : ClientState). x.pending_responses) next)
      (λ up. sym (ap (λ (x : ClientState). x.disconnected) next) ∙ up) o
submitted-IsOrdered pid k fin out r t cs room (inr (nothing, still)) o =
    put-IsOrdered pid k fin out t.2 cs
      (omega (arith, ap (λ (x : ClientState). x.requests_received) still))
      (ap (λ (x : ClientState). x.responses_sent) still)
      (ap (λ (x : ClientState). x.pending_responses) still)
      (λ up. sym (ap (λ (x : ClientState). x.disconnected) still) ∙ up) o

delivered-IsOrdered :
    (pid : ℕ) (fin : List Finished) (calls : List Write) (r : Request) (text : Bytes) (s : Service)
    → response_to r.client r.request_seq_num fin ≡ none
    → (s.clients pid).requests_received + max_pending_responses < u64_mod
    → r.request_seq_num < (s.clients r.client).requests_received
    → IsOrdered pid fin (s.output pid) (s.clients pid)
    → let s' = deliver calls r (some text) s in
      IsOrdered pid
        (record { request = r; response = some text } ∷ fin)
        (s'.output pid)
        (s'.clients pid)
unfolding deliver
delivered-IsOrdered pid fin calls r text s new room given o =
    by_pid (put_at r.client pid (s.output r.client ++ sent.0) s.output)
      (put_at r.client pid sent.2 s.clients)
  where
    sent : Bytes × List Write × ClientState
    sent = send_ordered_response calls r text (s.clients r.client)

    after : List Finished
    after = record { request = r; response = some text } ∷ fin

    outputs : ℕ → Bytes
    outputs = put r.client (s.output r.client ++ sent.0) s.output

    clients : ℕ → ClientState
    clients = put r.client sent.2 s.clients

    by_pid :
        ((pid ≡ r.client) × (outputs pid ≡ s.output r.client ++ sent.0))
          ⊎ ((pid ≢ r.client) × (outputs pid ≡ s.output pid))
        → ((pid ≡ r.client) × (clients pid ≡ sent.2))
          ⊎ ((pid ≢ r.client) × (clients pid ≡ s.clients pid))
        → IsOrdered pid after (outputs pid) (clients pid)
    by_pid (inl (same, out)) (inl (_, now)) =
        rw (out, now)
          (reply-IsOrdered pid fin r text (sym same)
            (subst (λ j. response_to j r.request_seq_num fin ≡ none) (sym same) new) calls
            (s.output r.client) (s.clients r.client)
            (subst (λ j. (s.clients j).requests_received + max_pending_responses < u64_mod) same
              room)
            given (subst (λ j. IsOrdered pid fin (s.output j) (s.clients j)) same o))
    by_pid (inl (same, out)) (inr (other, now)) = absurd (other same)
    by_pid (inr (other, out)) (inl (same, now)) = absurd (other same)
    by_pid (inr (other, out)) (inr (_, now)) =
        rw (out, now)
          (other-IsOrdered pid fin after (s.output pid) (s.clients pid)
            (λ n. other_client pid n (record { request = r; response = some text }) fin other) o)

pub answered-IsOrdered :
    (pid : ℕ) (fin : List Finished) (calls : List Write) (r : Request) (response : Option Bytes)
    (s : Service)
    → response_to r.client r.request_seq_num fin ≡ none
    → (s.clients pid).requests_received + max_pending_responses < u64_mod
    → r.request_seq_num < (s.clients r.client).requests_received
    → IsOrdered pid fin (s.output pid) (s.clients pid)
    → let s' = deliver calls r response s in
      IsOrdered pid
        (record { request = r; response = response } ∷ fin)
        (s'.output pid)
        (s'.clients pid)
unfolding deliver
answered-IsOrdered pid fin calls r (some text) s new room given o =
    delivered-IsOrdered pid fin calls r text s new room given o
answered-IsOrdered pid fin calls r none s new room given o =
    other-IsOrdered pid fin (record { request = r; response = none } ∷ fin) (s.output pid)
      (s.clients pid) (λ n. unanswered pid n r fin new) o
