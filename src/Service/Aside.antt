-- ===== src/Service/Aside.antt =====
-- threadpool.c and rpc.c: what a step of the service leaves of a client's numbers and pid, and what
-- threadpool_submit adds.
use comp_p.Common.{
  ℕ, ◌≡◌, ◌≢◌, ◌⊎◌, inl, inr, refl, sym, ap, subst, ◌∙◌, Bool, true, false, not, ◌||◌, ◌==◌, ==_iff,
  List, [], ◌∷◌, Option, none, some, if◌then◌else◌, Bytes, Bool-cases,
}
use comp_p.ServerCommon.{ClientState, Request, inc64}
use comp_p.Threadpool.{ClientQueue, Threadpool, Status, ok, no_memory, shut_down, not_connected}
use comp_p.Threadpool.Queues.{find_client_queue, threadpool_submit, request_of, enqueue}
use comp_p.Threadpool.Requests.{accepted_by}
use comp_p.Threadpool.Response.{Write}
use comp_p.Threadpool.Response.Marks.{send-received}
use comp_p.Rpc.{Environment, World, Next, Outcome, answered, paused}
use comp_p.Rpc.Request.{rpc_handle_request, resume}
use comp_p.Rpc.Aside.{client_of}
use comp_p.Rpc.Untouched.{
  SameReplies, SameReplies-of_eq, resume-client, rpc_handle_request-SameReplies,
}
use comp_p.Service.{Service, put, world_after, deliver}

pub put_at {ℓ} :
    {A : Type ℓ} (k j : ℕ) (v : A) (f : ℕ → A)
    → ((j ≡ k) × (put k v f j ≡ v)) ⊎ ((j ≢ k) × (put k v f j ≡ f j))
unfolding put
put_at k j v f = elim (Bool-cases (j == k)) [
  | inl same ↦ inl ((==_iff j k).0 same, rw (same, put) refl)
  | inr other ↦ inr ((λ e. cc (other, (==_iff j k).1 e)), rw (other, put) refl)
]

-- What a step leaves of a client's number and pid.
abbrev pub SameNumbers : (ℕ → ClientState) → (ℕ → ClientState) → Type 0
SameNumbers cs ds =
    (pid : ℕ)
    → ((ds pid).requests_received ≡ (cs pid).requests_received)
      × ((ds pid).client_pid ≡ (cs pid).client_pid)

pub put-SameNumbers :
    (k : ℕ) (c : ClientState) (cs : ℕ → ClientState)
    → (c.requests_received ≡ (cs k).requests_received) × (c.client_pid ≡ (cs k).client_pid)
    → SameNumbers cs (put k c cs)
put-SameNumbers k c cs h pid = elim (put_at k pid c cs) [
  | inl (same, at) ↦ rw (at, same) h
  | inr (other, off) ↦ rw off (refl, refl)
]

world_after-client : (o : Outcome) → (world_after o).client ≡ client_of o
unfolding world_after client_of
world_after-client (answered response w) = refl
world_after-client (paused id name next w) = refl

-- A request or a turn of its wait leaves the client's numbers and pending responses alone.
pub handled-SameReplies :
    (env : Environment) (w : World) (line : Bytes) (o : Outcome)
    → rpc_handle_request env w line ≡ o
    → SameReplies w.client (world_after o).client
handled-SameReplies env w line o e =
    subst (SameReplies w.client) (ap client_of e ∙ sym (world_after-client o))
      (rpc_handle_request-SameReplies env w line)

pub woken-SameReplies :
    (env : Environment) (w : World) (id : ℕ) (name : Bytes) (next : Next) (o : Outcome)
    → resume env w id name next ≡ o
    → SameReplies w.client (world_after o).client
woken-SameReplies env w id name next o e =
    SameReplies-of_eq w.client (world_after o).client
      (world_after-client o ∙ (ap client_of (sym e) ∙ resume-client env w id name next))

pub deliver-SameNumbers :
    (calls : List Write) (r : Request) (response : Option Bytes) (s : Service)
    → SameNumbers s.clients (deliver calls r response s).clients
unfolding deliver
deliver-SameNumbers calls r none s = λ pid. (refl, refl)
deliver-SameNumbers calls r (some response) s =
    put-SameNumbers r.client _ s.clients (send-received calls r response (s.clients r.client))

-- A request with the client's next number is added, or nothing.
abbrev pub IsSubmission : ClientState → Request → Status × Threadpool × ClientState → Type 0
IsSubmission c r (status, p, c') =
    ((accepted_by status r ≡ r ∷ [])
      × (c' ≡ record c { requests_received = inc64 c.requests_received }))
    ⊎ ((accepted_by status r ≡ []) × (c' ≡ c))

either-IsSubmission :
    (c : ClientState) (r : Request) (b : Bool) (x y : Status × Threadpool × ClientState)
    → IsSubmission c r x
    → IsSubmission c r y
    → IsSubmission c r (if b then x else y)
either-IsSubmission c r true x y hx hy = hx
either-IsSubmission c r false x y hx hy = hy

pub submit-IsSubmission :
    (request_ok node_ok : Bool) (p : Threadpool) (c : ClientState) (line : Bytes)
    → IsSubmission c (request_of c line) (threadpool_submit request_ok node_ok p c line)
unfolding threadpool_submit accepted_by
submit-IsSubmission request_ok node_ok p c line =
    either-IsSubmission c r (not request_ok || not node_ok) (no_memory, p, c)
      (if p.shutting_down then (shut_down, p, c) else queued) (inr (refl, refl))
      (either-IsSubmission c r p.shutting_down (shut_down, p, c) queued (inr (refl, refl))
        (found (find_client_queue c.client_pid p.clients)))
  where
    r : Request
    r = request_of c line

    taken : ClientQueue → Status × Threadpool × ClientState
    taken q = (ok, enqueue p q r, record c { requests_received = inc64 c.requests_received })

    with_queue : Option ClientQueue → Status × Threadpool × ClientState
    with_queue o = elim o [
      | none ↦ (not_connected, p, c)
      | some q ↦ if not q.active || c.disconnected then (not_connected, p, c) else taken q
    ]

    queued : Status × Threadpool × ClientState
    queued = with_queue (find_client_queue c.client_pid p.clients)

    found : (o : Option ClientQueue) → IsSubmission c r (with_queue o)
    found none = inr (refl, refl)
    found (some q) =
        either-IsSubmission c r (not q.active || c.disconnected) (not_connected, p, c) (taken q)
          (inr (refl, refl)) (inl (refl, refl))
