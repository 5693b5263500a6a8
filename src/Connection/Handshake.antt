-- ===== src/Connection/Handshake.antt =====
-- connection.c, client_connection.c and the call of accept_client in server_main.c: how clients and
-- the server find one another by signals. A step is one access to a variable that a signal handler
-- shares with its program, or one system call.
use comp_p.Common.{ℕ, ◌≡◌, ◌≢◌, ◌⊎◌, inl, inr, Bool, true, false, ◌==◌, if◌then◌else◌, arith}
use comp_p.Connection.{sigusr1_handler, server_take_pending_client}
use comp_p.Connection.ClientSide.{sigusr2_handler}

-- A client: before its SIGUSR1, in the loop of send_connection_request, and after it.
pub data Phase : Type 0 where
  idle waiting failed connected : Phase

-- The server's main thread: in server_take_pending_client between the reading of the pid and its
-- reset, in accept_client before create_fifos, between it and the signal, and after the signal, or
-- elsewhere.
pub data Server : Type 0 where
  elsewhere : Server
  taking accepting ready opening : ℕ → Server

-- `made p` says that create_fifos has succeeded for `p` and that the server has unlinked neither
-- FIFO since; `flag p` is sigusr2_received there; `listed p` says that the server's list of clients
-- has `p`.
pub record System : Type 0 where
  pub pending : ℕ
  pub server : Server
  pub made : ℕ → Bool
  pub flag : ℕ → Bool
  pub phase : ℕ → Phase
  pub listed : ℕ → Bool

unfoldable pub update {ℓ} : {A : Type ℓ} → (ℕ → A) → ℕ → A → ℕ → A
update f k v j = if j == k then v else f j

-- The pid is 0 if there is none.
unfoldable pub accepted : ℕ → Server
accepted p = if p == 0 then elsewhere else accepting p

pub data Step (s : System) : System → Type 0 where
  connect :
      (p : ℕ)
      → s.phase p ≡ idle
      → p ≢ 0
      → Step s
          (record s { pending = sigusr1_handler p s.pending; phase = update s.phase p waiting })
  take_pid :
      s.server ≡ elsewhere
      → Step s (record s { server = taking (server_take_pending_client s.pending).0 })
  reset_pid :
      (p : ℕ)
      → s.server ≡ taking p
      → Step s
          (record s { pending = (server_take_pending_client s.pending).1; server = accepted p })
  refuse :
      (p : ℕ)
      → s.server ≡ accepting p
      → s.listed p ≡ true
      → Step s (record s { server = elsewhere })
  -- create_fifos removes what it finds, also where it then fails
  create_fails :
      (p : ℕ)
      → s.server ≡ accepting p
      → s.listed p ≡ false
      → Step s (record s { server = elsewhere; made = update s.made p false })
  create :
      (p : ℕ)
      → s.server ≡ accepting p
      → s.listed p ≡ false
      → Step s (record s { server = ready p; made = update s.made p true })
  kill_fails :
      (p : ℕ)
      → s.server ≡ ready p
      → Step s (record s { server = elsewhere; made = update s.made p false })
  signal_ready :
      (p : ℕ)
      → s.server ≡ ready p
      → Step s
          (record s { server = opening p; flag = update s.flag p (sigusr2_handler (s.flag p)) })
  -- accept_client fails after the signal, and unlinks
  give_up :
      (p : ℕ)
      → s.server ≡ opening p
      → Step s (record s { server = elsewhere; made = update s.made p false })
  enlist :
      (p : ℕ)
      → s.server ≡ opening p
      → Step s (record s { server = elsewhere; listed = update s.listed p true })
  -- close_client unlinks the FIFOs and leaves the client in the list
  close_client :
      (p : ℕ)
      → s.server ≡ elsewhere
      → s.listed p ≡ true
      → Step s (record s { made = update s.made p false })
  poll :
      (p : ℕ)
      → s.phase p ≡ waiting
      → s.flag p ≡ true
      → Step s (record s { phase = update s.phase p connected })
  time_out : (p : ℕ) → s.phase p ≡ waiting → Step s (record s { phase = update s.phase p failed })

abbrev pub start : System
start = record {
  pending = 0;
  server = elsewhere;
  made = λ p. false;
  flag = λ p. false;
  phase = λ p. idle;
  listed = λ p. false;
}

pub data Reach (s : System) : System → Type 0 where
  here : Reach s s
  later : {t u : System} → Reach s t → Step t u → Reach s u

-- The pid in the server's hands, up to the signal.
unfoldable pub held : Server → ℕ
held elsewhere = 0
held (taking p) = p
held (accepting p) = p
held (ready p) = p
held (opening p) = 0

-- What holds of every client `p` at every moment.
pub record IsSound (s : System) (p : ℕ) : Type 0 where
  pub asked_pending : s.pending ≡ p → p ≢ 0 → s.phase p ≢ idle
  pub asked_held : held s.server ≡ p → p ≢ 0 → s.phase p ≢ idle
  pub made_ready : s.server ≡ ready p → s.made p ≡ true
  pub made_opening : s.server ≡ opening p → s.made p ≡ true
  pub asked_made : s.made p ≡ true → s.phase p ≢ idle
  pub connects : s.phase p ≡ connected → s.flag p ≡ true
  pub real : s.server ≡ accepting p → p ≢ 0

Step-IsSound : {s t : System} → Step s t → ((p : ℕ) → IsSound s p) → (p : ℕ) → IsSound t p
unfolding update held accepted
Step-IsSound {s} (connect q idle_q real) h p = grind (arith, h p)
Step-IsSound {s} (take_pid e) h p = grind (arith, h p)
Step-IsSound {s} (reset_pid q e) h p = grind (arith, h p)
Step-IsSound {s} (refuse q e l) h p = grind (arith, h p)
Step-IsSound {s} (create_fails q e l) h p = grind (arith, h p)
Step-IsSound {s} (create q e l) h p = grind (arith, h p)
Step-IsSound {s} (kill_fails q e) h p = grind (arith, h p)
Step-IsSound {s} (signal_ready q e) h p = grind (arith, h p)
Step-IsSound {s} (give_up q e) h p = grind (arith, h p)
Step-IsSound {s} (enlist q e) h p = grind (arith, h p)
Step-IsSound {s} (close_client q e l) h p = grind (arith, h p)
Step-IsSound {s} (poll q e f) h p = grind (arith, h p)
Step-IsSound {s} (time_out q e) h p = grind (arith, h p)

start-IsSound : (p : ℕ) → IsSound start p
unfolding held
start-IsSound p = ground arith

pub Reach-IsSound : {s : System} → Reach start s → (p : ℕ) → IsSound s p
Reach-IsSound here p = start-IsSound p
Reach-IsSound (later r st) p = Step-IsSound st (Reach-IsSound r) p

-- A moment of the past at which the server had made the FIFOs of `p` and was about to signal it.
pub record WasMade (p : ℕ) (s : System) : Type 0 where
  pub moment : System
  pub reached : Reach start moment
  pub since : Reach moment s
  pub about : moment.server ≡ ready p
  pub fifos : moment.made p ≡ true

WasMade-later : {s t : System} (p : ℕ) → Step s t → WasMade p s → WasMade p t
WasMade-later p st w = record {
  moment = w.moment;
  reached = w.reached;
  since = later w.since st;
  about = w.about;
  fifos = w.fifos;
}

-- Only a signal raises a flag.
raises :
    {s t : System} (p : ℕ) → Step s t → t.flag p ≡ true → (s.flag p ≡ true) ⊎ (s.server ≡ ready p)
unfolding update
raises p (connect q idle_q real) h = inl h
raises p (take_pid e) h = inl h
raises p (reset_pid q e) h = inl h
raises p (refuse q e l) h = inl h
raises p (create_fails q e l) h = inl h
raises p (create q e l) h = inl h
raises p (kill_fails q e) h = inl h
raises p (signal_ready q e) h = grind arith
raises p (give_up q e) h = inl h
raises p (enlist q e) h = inl h
raises p (close_client q e l) h = inl h
raises p (poll q e f) h = inl h
raises p (time_out q e) h = inl h

flag-WasMade : {s : System} (p : ℕ) → Reach start s → s.flag p ≡ true → WasMade p s
flag-WasMade p here h = cc h
flag-WasMade p (later {t} r st) h =
    let found = flag-WasMade p r in
    elim (raises p st h) [
      | inl old ↦ WasMade-later p st (found old)
      | inr at ↦ record {
        moment = t;
        reached = r;
        since = later here st;
        about = at;
        fifos = (Reach-IsSound r p).made_ready at;
      }
    ]

-- In every interleaving of any number of clients with the server: a client connects only after a
-- moment at which the server had made its FIFOs and was about to signal it. The server makes FIFOs
-- only for a client that has asked, and they are there from create_fifos on until accept_client
-- has enlisted the client or has given up.
pub connected-WasMade :
    {s : System} (p : ℕ)
    → Reach start s
    → (s.phase p ≡ connected → WasMade p s)
      × (s.made p ≡ true → s.phase p ≢ idle)
      × ((s.server ≡ ready p) ⊎ (s.server ≡ opening p) → s.made p ≡ true)
connected-WasMade p r =
    let h = Reach-IsSound r p in
    (
      λ c. flag-WasMade p r (h.connects c),
      h.asked_made,
      λ at. elim at [ inl before ↦ h.made_ready before | inr after ↦ h.made_opening after ],
    )
