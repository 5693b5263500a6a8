-- ===== src/Service/Sweep.antt =====
-- server_main.c, main: a loop of the main thread over all its clients is made of steps of the service.
use comp_p.Common.{
  ℕ, ◌≡◌, ◌≢◌, refl, sym, ap, subst, ◌∙◌, Bool, true, false, List, [], ◌∷◌, Option, if◌then◌else◌,
  inl, inr,
}
use mathlib.Core.Path.{ap₂}
use comp_p.Auth.{AuthDb}
use comp_p.Handles.{HandleStore}
use comp_p.ServerCommon.{ClientState, zero_client}
use comp_p.Threadpool.{Threadpool}
use comp_p.Rpc.{World, with_client}
use comp_p.Server.{ServerClient}
use comp_p.Server.Clients.{read_client_requests}
use comp_p.Server.Main.{
  Server, Visited, over_clients, untouched, cleanup_visit, Happening, is_ready, watched_fd,
  read_visit, close_visit,
}
use comp_p.Service.{Service, put}
use comp_p.Service.Ledger.{Ledger, Reach}
use comp_p.Service.Aside.{put_at}
use comp_p.Service.Reached.{put_self, put_same, IsReached, reached, close_client-IsReached}
use comp_p.Service.Main.{cleanup_client-IsReached, read_client_requests-IsReached}

-- The client of that pid before it has come.
abbrev pub fresh_client : ℕ → ClientState
fresh_client pid = record zero_client { client_pid = pid }

-- The service at the main thread's world and pool.
abbrev pub in_world : Service → (ℕ → ClientState) → World → Threadpool → Service
in_world s f w pool = record s {
  pool = pool;
  auth = w.auth;
  handles = w.handles;
  log = w.log;
  clients = f;
}

abbrev pub pids : List ServerClient → List ℕ
pids [] = []
pids (c ∷ cs) = c.state.client_pid ∷ pids cs

abbrev pub IsAbsent : ℕ → List ℕ → Type 0
IsAbsent pid [] = Unit
IsAbsent pid (k ∷ ks) = (k ≢ pid) × IsAbsent pid ks

abbrev pub AreDistinct : List ℕ → Type 0
AreDistinct [] = Unit
AreDistinct (k ∷ ks) = IsAbsent k ks × AreDistinct ks

-- The function has the states of the clients in the list.
abbrev pub Shows : (ℕ → ClientState) → List ServerClient → Type 0
Shows f [] = Unit
Shows f (c ∷ cs) = (f c.state.client_pid ≡ c.state) × Shows f cs

pub put_off : {A : Type 0} (k j : ℕ) (v : A) (f : ℕ → A) → k ≢ j → put k v f j ≡ f j
put_off k j v f other = elim (put_at k j v f) [
  | inl (same, at) ↦ absurd (other (sym same))
  | inr (_, off) ↦ off
]

pub put-Shows :
    (k : ℕ) (v : ClientState) (f : ℕ → ClientState) (cs : List ServerClient)
    → IsAbsent k (pids cs)
    → Shows f cs
    → Shows (put k v f) cs
put-Shows k v f [] absent h = h
put-Shows k v f (c ∷ cs) absent h = (
  put_off k c.state.client_pid v f (λ e. absent.0 (sym e)) ∙ h.0,
  put-Shows k v f cs absent.1 h.1,
)

put_shown : (k : ℕ) (v : ClientState) (f : ℕ → ClientState) → f k ≡ v → put k v f ≡ f
put_shown k v f h = subst (λ x. put k x f ≡ f) h (put_same k f)

module _ (auth : Option AuthDb) (handles : HandleStore) (clients : ℕ → ClientState)
    (base : Service) where
  -- The service comes to the state with these clients, this world and this pool.
  abbrev pub Comes : (ℕ → ClientState) → World → Threadpool → Type 0
  Comes f w pool = (l : Ledger) × Reach auth handles clients l (in_world base f w pool)

  -- An iteration of a loop over the clients.
  abbrev pub IsVisit : (ServerClient → World → Threadpool → Visited) → Type 0
  IsVisit visit =
      (c : ServerClient) (w : World) (pool : Threadpool) (f : ℕ → ClientState)
      → f c.state.client_pid ≡ c.state
      → Comes f w pool
      → let v = visit c w pool in
        (v.client.state.client_pid ≡ c.state.client_pid)
        × Comes (put c.state.client_pid v.client.state f) v.world v.pool

  -- The main thread turns to a client.
  turned :
      (c : ServerClient) (w : World) (pool : Threadpool) (f : ℕ → ClientState)
      → f c.state.client_pid ≡ c.state
      → Comes f w pool
      → IsReached auth handles clients
          (in_world base f w pool)
          c.state.client_pid
          (with_client c.state w)
          pool
  turned c w pool f h (l, r) =
      reached auth handles clients (in_world base f w pool) c.state.client_pid
        (with_client c.state w) pool refl
        (subst (λ g. Reach auth handles clients l (in_world base g w pool))
          (sym (put_shown c.state.client_pid c.state f h)) r)

  pub cleanup_visit-IsVisit : (now : ℕ) (gone : ℕ → Bool) → IsVisit (cleanup_visit now gone)
  unfolding cleanup_visit
  cleanup_visit-IsVisit now gone c w pool f h r =
      let x =
        cleanup_client-IsReached auth handles clients (in_world base f w pool) c.state.client_pid
          now (gone c.state.client_pid) (with_client c.state w) pool (turned c w pool f h r) in
      (x.pid_of, (x.ledger, x.reach))

  pub close_visit-IsVisit : (now : ℕ) → IsVisit (close_visit now)
  unfolding close_visit
  close_visit-IsVisit now c w pool f h r =
      let x =
        close_client-IsReached auth handles clients (in_world base f w pool) c.state.client_pid now
          (with_client c.state w) pool (turned c w pool f h r) in
      (x.pid_of, (x.ledger, x.reach))

  pub read_visit-IsVisit : (h : Happening) (set : ℕ → Bool) → IsVisit (read_visit h set)
  unfolding read_visit
  read_visit-IsVisit h set c w pool f shown r = chosen (is_ready set (watched_fd c))
    where
      pid : ℕ
      pid = c.state.client_pid

      x :
          IsReached auth handles clients
            (in_world base f w pool)
            pid
            (read_client_requests
              (h.allocations pid)
              h.now
              (h.reads pid)
              (with_client c.state w)
              pool
              c.read_buffer).0
            (read_client_requests
              (h.allocations pid)
              h.now
              (h.reads pid)
              (with_client c.state w)
              pool
              c.read_buffer).1
      x =
          read_client_requests-IsReached auth handles clients (in_world base f w pool) pid
            (h.allocations pid) h.now (h.reads pid) (with_client c.state w) pool c.read_buffer
            (turned c w pool f shown r)

      after : Visited
      after =
          let (w', pool', buffer, released) =
            read_client_requests (h.allocations pid) h.now (h.reads pid) (with_client c.state w)
              pool c.read_buffer in
          record {
            client = record { state = w'.client; read_buffer = buffer };
            world = w';
            pool = pool';
            released = released;
          }

      chosen :
          (b : Bool)
          → let v = if b then after else untouched c w pool in
            (v.client.state.client_pid ≡ pid) × Comes (put pid v.client.state f) v.world v.pool
      chosen true = (x.pid_of, (x.ledger, x.reach))
      chosen false = (refl, subst (λ g. Comes g w pool) (sym (put_shown pid c.state f shown)) r)

  -- After a loop over the clients, from the function `f` on.
  pub record Swept (f : ℕ → ClientState) (cs : List ServerClient) (s : Server) : Type 0 where
    pub g : ℕ → ClientState
    pub comes : Comes g s.world s.pool
    pub shows : Shows g s.clients
    pub same_pids : pids s.clients ≡ pids cs
    pub others : (pid : ℕ) → IsAbsent pid (pids cs) → g pid ≡ f pid

  pub over_clients-Swept :
      (visit : ServerClient → World → Threadpool → Visited)
      → IsVisit visit
      → (cs : List ServerClient) (w : World) (pool : Threadpool) (f : ℕ → ClientState)
      → AreDistinct (pids cs)
      → Shows f cs
      → Comes f w pool
      → Swept f cs (over_clients visit cs w pool)
  unfolding over_clients
  over_clients-Swept visit is [] w pool f distinct shown r = record {
    g = f;
    comes = r;
    shows = tt;
    same_pids = refl;
    others = λ pid absent. refl;
  }
  over_clients-Swept visit is (c ∷ cs) w pool f distinct shown r =
      let k = c.state.client_pid in
      let v = visit c w pool in
      let (same, next) = is c w pool f shown.0 r in
      let f' = put k v.client.state f in
      let rest =
        over_clients-Swept visit is cs v.world v.pool f' distinct.1
          (put-Shows k v.client.state f cs distinct.0 shown.1) next in
      record {
        g = rest.g;
        comes = rest.comes;
        shows =
            (ap rest.g same ∙ (rest.others k distinct.0 ∙ put_self k v.client.state f), rest.shows);
        same_pids = ap₂ ◌∷◌ same rest.same_pids;
        others = λ pid absent. rest.others pid absent.1 ∙ put_off k pid v.client.state f absent.0;
      }
