-- ===== src/Service/System.antt =====
-- server_main.c, main, with threadpool.c and rpc.c: the whole server, its main thread and its workers.
use comp_p.Common.{
  ℕ, ◌+◌, ◌<◌, ◌≤◌, leb, ◌≡◌, refl, sym, ap, subst, ◌∙◌, Bool, List, [], ◌∷◌, Option, some, Bytes,
  length, Bool-cases, ◌⊎◌, inl, inr, arith,
}
use std.Path.{fun_ext}
use comp_p.Auth.{AuthDb}
use comp_p.Handles.{HandleStore}
use comp_p.ServerCommon.{ClientState, Request, max_pending_responses, u64_mod}
use comp_p.Server.{ServerClient}
use comp_p.Threadpool.Life.{Resources}
use comp_p.Server.Start.{serves, server_start}
use comp_p.Server.Main.{Server, Happening, main_round, close_clients}
use comp_p.Server.Boot.{first_server, server_start-serves}
use comp_p.Service.{Job, Service, put}
use comp_p.Service.Ledger.{Ledger, Step, Reach, begin, later}
use comp_p.Service.Aside.{put_at}
use comp_p.Service.Conserve.{Conserved, requests_conserved}
use comp_p.Service.Ordered.{IsNew, ReadsInOrder, responses_in_order}
use comp_p.Service.Sweep.{fresh_client, in_world, pids, IsAbsent, AreDistinct, Shows, put-Shows}
use comp_p.Service.Reached.{put_self}
use comp_p.Service.Rounds.{IsServed, main_round-IsServed, close_clients-IsServed}

-- The clients by their pid.
abbrev pub clients_of : List ServerClient → ℕ → ClientState
clients_of [] = fresh_client
clients_of (c ∷ cs) = put c.state.client_pid c.state (clients_of cs)

-- The main thread's server, with what the workers have in hand and what the clients have read.
abbrev pub service_of : Server → List Job → (ℕ → Bytes) → Service
service_of s jobs output = record {
  pool = s.pool;
  auth = s.world.auth;
  handles = s.world.handles;
  log = s.world.log;
  clients = clients_of s.clients;
  jobs = jobs;
  output = output;
}

-- The whole server, from the state in which main comes to its loop: the rounds of the main thread,
-- the closes at its end and, between them, the steps of the service, after which the same clients
-- stand in the list.
pub data System (first : Server) : Server → List Job → (ℕ → Bytes) → Type 0 where
  boot : System first first [] (λ pid. [])
  round :
      {s : Server} {jobs : List Job} {output : ℕ → Bytes} (h : Happening) (pid : ℕ)
      → System first s jobs output
      → System first (main_round h pid s).0 jobs output
  work :
      {s s' : Server} {jobs jobs' : List Job} {output output' : ℕ → Bytes}
      → System first s jobs output
      → pids s'.clients ≡ pids s.clients
      → ((l : Ledger)
          → (l' : Ledger) × Step l (service_of s jobs output) l' (service_of s' jobs' output'))
      → System first s' jobs' output'
  finish :
      {s : Server} {jobs : List Job} {output : ℕ → Bytes} (now : ℕ)
      → System first s jobs output
      → System first (close_clients now s) jobs output

clients_of-Shows : (cs : List ServerClient) → AreDistinct (pids cs) → Shows (clients_of cs) cs
clients_of-Shows [] distinct = tt
clients_of-Shows (c ∷ cs) distinct = (
  put_self c.state.client_pid c.state (clients_of cs),
  put-Shows c.state.client_pid c.state (clients_of cs) cs distinct.0
      (clients_of-Shows cs distinct.1),
)

clients_of-fresh :
    (pid : ℕ) (cs : List ServerClient)
    → IsAbsent pid (pids cs)
    → clients_of cs pid ≡ fresh_client pid
clients_of-fresh pid [] absent = refl
clients_of-fresh pid (c ∷ cs) absent =
    elim (put_at c.state.client_pid pid c.state (clients_of cs)) [
      | inl (same, at) ↦ absurd (absent.0 (sym same))
      | inr (other, off) ↦ off ∙ clients_of-fresh pid cs absent.1
    ]

-- A function with these clients, and a fresh one elsewhere, is that of the list.
shown-clients_of :
    (g : ℕ → ClientState) (cs : List ServerClient)
    → Shows g cs
    → (pid : ℕ) → (IsAbsent pid (pids cs) → g pid ≡ fresh_client pid)
    → g pid ≡ clients_of cs pid
shown-clients_of g [] shows pid fresh = fresh tt
shown-clients_of g (c ∷ cs) shows pid fresh =
    elim (put_at c.state.client_pid pid c.state (clients_of cs)) [
      | inl (same, at) ↦ ap g same ∙ (shows.0 ∙ sym at)
      | inr (other, off) ↦
          shown-clients_of g cs shows.1 pid (λ absent. fresh ((λ e. other (sym e)), absent))
          ∙ sym off
    ]

fresh-IsNew : (pid : ℕ) → IsNew pid (fresh_client pid)
fresh-IsNew pid = record {
  pid_of = refl;
  none_received = refl;
  none_sent = refl;
  no_pending = λ k. refl;
  connected = refl;
}

module _ (db : AuthDb) (store : HandleStore) where
  abbrev Served : Server → List Job → (ℕ → Bytes) → Type 0
  Served s jobs output = IsServed (some db) store fresh_client (service_of s jobs output) s

  -- The state of the service that belongs to the server is one that it comes to.
  served_reach :
      (base : Service) (s : Server)
      → IsServed (some db) store fresh_client base s
      → (l : Ledger) × Reach (some db) store fresh_client l (service_of s base.jobs base.output)
  served_reach base s v = (
    v.comes.0,
    subst (λ f. Reach (some db) store fresh_client v.comes.0 (in_world base f s.world s.pool))
        (fun_ext (λ pid. shown-clients_of v.g s.clients v.shows pid (v.fresh pid))) v.comes.1,
  )

  reach-IsServed :
      (s : Server) (jobs : List Job) (output : ℕ → Bytes) {l : Ledger}
      → AreDistinct (pids s.clients)
      → Reach (some db) store fresh_client l (service_of s jobs output)
      → Served s jobs output
  reach-IsServed s jobs output {l} distinct r = record {
    g = clients_of s.clients;
    comes = (l, r);
    shows = clients_of-Shows s.clients distinct;
    distinct = distinct;
    fresh = λ pid absent. clients_of-fresh pid s.clients absent;
  }

  -- After the main thread has worked, in terms of the list of its clients.
  again-Served :
      (base : Service) (s : Server)
      → IsServed (some db) store fresh_client base s
      → Served s base.jobs base.output
  again-Served base s v =
      reach-IsServed s base.jobs base.output v.distinct (served_reach base s v).1

  System-Served :
      {s : Server} {jobs : List Job} {output : ℕ → Bytes}
      → System (first_server db store) s jobs output
      → Served s jobs output
  System-Served boot = reach-IsServed (first_server db store) [] (λ pid. []) tt begin
  System-Served (round {s} {jobs} {output} h pid r) =
      let base = service_of s jobs output in
      again-Served base (main_round h pid s).0
        (main_round-IsServed (some db) store fresh_client base h pid s (System-Served r))
  System-Served (work {s} {s'} {jobs} {jobs'} {output} {output'} r same step) =
      let v = System-Served r in
      let (l, before) = served_reach (service_of s jobs output) s v in
      reach-IsServed s' jobs' output' (subst AreDistinct (sym same) v.distinct)
        (later before (step l).1)
  System-Served (finish {s} {jobs} {output} now r) =
      let base = service_of s jobs output in
      again-Served base (close_clients now s)
        (close_clients-IsServed (some db) store fresh_client base now s (System-Served r))

  System-Reach :
      {s : Server} {jobs : List Job} {output : ℕ → Bytes}
      → System (first_server db store) s jobs output
      → (l : Ledger) × Reach (some db) store fresh_client l (service_of s jobs output)
  System-Reach {s} {jobs} {output} r = served_reach (service_of s jobs output) s (System-Served r)

-- What the ledger tells, as long as fewer than 2^64 - 1025 requests have been accepted.
promise :
    (auth : Option AuthDb) (store : HandleStore) (l : Ledger) (t : Service)
    → Reach auth store fresh_client l t
    → (u64_mod ≤ length l.accepted + max_pending_responses + 1)
      ⊎ (((picks : Request → Bool) → Conserved picks l t) × ((pid : ℕ) → ReadsInOrder pid l t))
promise auth store l t r =
    elim (Bool-cases (leb u64_mod (length l.accepted + max_pending_responses + 1))) [
      | inl many ↦ inl (ground (arith, many))
      | inr few ↦
          let room : length l.accepted + max_pending_responses + 1 < u64_mod =
            ground (arith, few) in
          inr (requests_conserved r (omega (arith, room)), responses_in_order fresh-IsNew r room)
    ]

-- Whatever the start finds, once main has come to its loop, every state of the whole server, through
-- any rounds of the main thread and any steps of the workers between them, and through the closes at
-- the end, is a state of the service with fresh clients at its start, with a ledger of its requests.
-- And unless 2^64 - 1025 requests have been accepted, each accepted request is in exactly one place
-- there, and each client has read the responses to its own requests in order, whole but for a last
-- one that a failed write has cut off.
pub system_reached :
    (signals_ok : Bool) (calloc_ok : ℕ → Bool) (users_file : Option Bytes)
    (store : Option HandleStore) (os : Resources) (arguments : List Bytes) {first s : Server}
    {jobs : List Job} {output : ℕ → Bytes}
    → server_start signals_ok calloc_ok users_file store os arguments ≡ serves first
    → System first s jobs output
    → (l : Ledger) × Reach first.world.auth first.world.handles fresh_client l
        (service_of s jobs output)
      × ((u64_mod ≤ length l.accepted + max_pending_responses + 1)
          ⊎ (((picks : Request → Bool) → Conserved picks l (service_of s jobs output))
              × ((pid : ℕ) → ReadsInOrder pid l (service_of s jobs output))))
system_reached signals_ok calloc_ok users_file store os arguments {first} {s} {jobs} {output} h r =
    let (db, handles, same) =
      server_start-serves signals_ok calloc_ok users_file store os arguments first h in
    let (l, reach) =
      subst
        (λ x.
          (l : Ledger) × Reach x.world.auth x.world.handles fresh_client l
            (service_of s jobs output))
        same (System-Reach db handles (subst (λ x. System x s jobs output) (sym same) r)) in
    (l, reach, promise first.world.auth first.world.handles l (service_of s jobs output) reach)
