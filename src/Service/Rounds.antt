-- ===== src/Service/Rounds.antt =====
-- server_main.c, main: the rounds of the main thread are made of steps of the service.
use comp_p.Common.{
  ℕ, ◌≡◌, sym, subst, ◌∙◌, Bool, true, false, ◌==◌, ==_iff, leb, List, [], ◌∷◌, Option, none, some,
  if◌then◌else◌, Bool-cases, inl, inr,
}
use comp_p.Auth.{AuthDb}
use comp_p.Handles.{HandleStore}
use comp_p.ServerCommon.{ClientState}
use comp_p.Threadpool.{Threadpool}
use comp_p.Threadpool.Queues.{threadpool_register_client}
use comp_p.Rpc.{World}
use comp_p.Server.{ServerClient}
use comp_p.Server.Clients.{Released, find_client, new_client, Opening, Accepted, accept_client}
use comp_p.Server.Accept.{AcceptedAs, ignored, turned_down, enlisted, accept_client-AcceptedAs}
use comp_p.Server.Main.{
  and_also, Server, Visited, sweep, cleanup_visit, cleanup_inactive_clients, Select, interrupted,
  broken, timed_out, ready, Happening, read_visit, after_select, accept_pending, main_round,
  close_visit, close_clients,
}
use comp_p.Service.{Service, put}
use comp_p.Service.Ledger.{register, open_client, Reach, later}
use comp_p.Service.Reached.{put_self}
use comp_p.Service.Sweep.{
  fresh_client, in_world, pids, IsAbsent, AreDistinct, Shows, put_off, put-Shows, Comes, IsVisit,
  cleanup_visit-IsVisit, close_visit-IsVisit, read_visit-IsVisit, over_clients-Swept,
}

pub IsAbsent-of :
    (pid : ℕ) (cs : List ServerClient) → find_client pid cs ≡ none → IsAbsent pid (pids cs)
unfolding find_client
IsAbsent-of pid [] h = tt
IsAbsent-of pid (c ∷ cs) h = elim (Bool-cases (c.state.client_pid == pid)) [
  | inl same ↦ absurd (no_value (rw same at h))
  | inr other ↦
      ((λ e. cc (other, (==_iff c.state.client_pid pid).1 e)), IsAbsent-of pid cs (rw other at h))
]
  where
    no_value : {A : Type 0} {a : A} → some a ≡ none → ⊥
    no_value e = cc

module _ (auth : Option AuthDb) (handles : HandleStore) (clients : ℕ → ClientState)
    (base : Service) where
  -- The main thread's clients, world and pool stand in a state that the service comes to. A pid that
  -- it does not know has a fresh client.
  pub record IsServed (s : Server) : Type 0 where
    pub g : ℕ → ClientState
    pub comes : Comes auth handles clients base g s.world s.pool
    pub shows : Shows g s.clients
    pub distinct : AreDistinct (pids s.clients)
    pub fresh : (pid : ℕ) → IsAbsent pid (pids s.clients) → g pid ≡ fresh_client pid

  sweep-IsServed :
      (visit : ServerClient → World → Threadpool → Visited)
      → IsVisit auth handles clients base visit
      → (s : Server) → IsServed s
      → IsServed (sweep visit s)
  sweep-IsServed visit is s v =
      let x =
        over_clients-Swept auth handles clients base visit is s.clients s.world s.pool v.g
          v.distinct v.shows v.comes in
      record {
        g = x.g;
        comes = x.comes;
        shows = x.shows;
        distinct = subst AreDistinct (sym x.same_pids) v.distinct;
        fresh = λ pid absent.
            let was = subst (IsAbsent pid) x.same_pids absent in x.others pid was ∙ v.fresh pid was;
      }

  -- The client's queue is made, and its descriptors are entered.
  enlisted-IsServed :
      (os : Opening) (pid c2s s2c : ℕ) (s : Server)
      → find_client pid s.clients ≡ none
      → IsServed s
      → IsServed (record s {
        clients = new_client os pid c2s s2c ∷ s.clients;
        pool = (threadpool_register_client os.queue_ok s.pool pid).1;
      })
  unfolding new_client
  enlisted-IsServed os pid c2s s2c s miss v =
      let absent = IsAbsent-of pid s.clients miss in
      let now = (new_client os pid c2s s2c).state in
      let opened =
        later (later v.comes.1 (register os.queue_ok pid)) (open_client os.time pid c2s s2c) in
      let entered : ClientState → ClientState =
        λ c. record c { fifo_c2s_fd = some c2s; fifo_s2c_fd = some s2c; last_activity = os.time } in
      record {
        g = put pid now v.g;
        comes = (
          v.comes.0,
          subst
              (λ c. Reach auth handles clients v.comes.0 (
                in_world base (put pid (entered c) v.g) s.world
                  (threadpool_register_client os.queue_ok s.pool pid).1))
              (v.fresh pid absent) opened,
        );
        shows = (put_self pid now v.g, put-Shows pid now v.g s.clients absent v.shows);
        distinct = (absent, v.distinct);
        fresh = λ k other. put_off pid k now v.g other.0 ∙ v.fresh k other.1;
      }

  accept_pending-IsServed :
      (os : Opening) (pid : ℕ) (s : Server) → IsServed s → IsServed (accept_pending os pid s)
  unfolding accept_pending new_client
  accept_pending-IsServed os pid s v = chosen (leb 1 pid)
    where
      a : Accepted
      a = accept_client os pid s.clients s.pool

      as_was :
          (b : Accepted)
          → b.clients ≡ s.clients
          → b.pool ≡ s.pool
          → IsServed (record s { clients = b.clients; pool = b.pool })
      as_was b cs p =
          rw (cs, p)
            (record {
              g = v.g;
              comes = v.comes;
              shows = v.shows;
              distinct = v.distinct;
              fresh = v.fresh;
            })

      with_a :
          AcceptedAs os pid s.clients s.pool a
          → IsServed (record s { clients = a.clients; pool = a.pool })
      with_a (ignored rc cs p released) = as_was a cs p
      with_a (turned_down rc cs p released) = as_was a cs p
      with_a (enlisted c2s s2c has_c2s has_s2c rc cs miss p found released) =
          rw (cs, p) (enlisted-IsServed os pid c2s s2c s miss v)

      -- What has been released is of no account.
      also : (r : Released) (t : Server) → IsServed t → IsServed (record t { released = r })
      also r t x = record {
        g = x.g;
        comes = x.comes;
        shows = x.shows;
        distinct = x.distinct;
        fresh = x.fresh;
      }

      chosen :
          (b : Bool)
          → IsServed (
              if b
              then record s {
                clients = a.clients;
                pool = a.pool;
                released = and_also s.released a.released;
              }
              else s)
      chosen true =
          also (and_also s.released a.released) (record s { clients = a.clients; pool = a.pool })
            (with_a (accept_client-AcceptedAs os pid s.clients s.pool))
      chosen false = v

  after_select-IsServed :
      (h : Happening) (e : Select) (s : Server) → IsServed s → IsServed (after_select h e s).0
  unfolding after_select
  after_select-IsServed h interrupted s v = v
  after_select-IsServed h broken s v = v
  after_select-IsServed h timed_out s v = v
  after_select-IsServed h (ready set) s v =
      sweep-IsServed (read_visit h set) (read_visit-IsVisit auth handles clients base h set) s v

  pub main_round-IsServed :
      (h : Happening) (pid : ℕ) (s : Server) → IsServed s → IsServed (main_round h pid s).0
  unfolding main_round cleanup_inactive_clients
  main_round-IsServed h pid s v =
      let accepted = accept_pending h.opening pid s in
      after_select-IsServed h h.select (sweep (cleanup_visit h.now h.gone) accepted) (
        sweep-IsServed (cleanup_visit h.now h.gone)
          (cleanup_visit-IsVisit auth handles clients base h.now h.gone) accepted
          (accept_pending-IsServed h.opening pid s v))

  pub close_clients-IsServed : (now : ℕ) (s : Server) → IsServed s → IsServed (close_clients now s)
  unfolding close_clients
  close_clients-IsServed now s v =
      sweep-IsServed (close_visit now) (close_visit-IsVisit auth handles clients base now) s v
