-- ===== src/Connection/Lost.antt =====
-- connection.c, pending_client_pid: one variable for the requests of all clients.
use comp_p.Common.{ℕ, ◌≡◌, ◌≢◌, false, arith}
use comp_p.Connection.{sigusr1_handler}
use comp_p.Connection.Handshake.{
  idle, waiting, connected, System, update, accepted, held, Step, connect, take_pid, reset_pid,
  refuse, create, create_fails, kill_fails, signal_ready, give_up, enlist, close_client, poll,
  time_out, Reach, here, later,
}

-- The server does not know of the request of `p`, and will not be told.
pub record IsLost (p : ℕ) (s : System) : Type 0 where
  pub asked : s.phase p ≢ idle
  pub outside : s.phase p ≢ connected
  pub not_pending : s.pending ≢ p
  pub not_held : held s.server ≢ p
  pub not_ready : s.flag p ≡ false
  pub real : p ≢ 0

Step-IsLost : {s t : System} (p : ℕ) → Step s t → IsLost p s → IsLost p t
unfolding update held accepted
Step-IsLost p (connect q idle_q real) h = grind arith
Step-IsLost p (take_pid e) h = grind arith
Step-IsLost p (reset_pid q e) h = grind arith
Step-IsLost p (refuse q e l) h = grind arith
Step-IsLost p (create_fails q e l) h = grind arith
Step-IsLost p (create q e l) h = grind arith
Step-IsLost p (kill_fails q e) h = grind arith
Step-IsLost p (signal_ready q e) h = grind arith
Step-IsLost p (give_up q e) h = grind arith
Step-IsLost p (enlist q e) h = grind arith
Step-IsLost p (close_client q e l) h = grind arith
Step-IsLost p (poll q e f) h = grind arith
Step-IsLost p (time_out q e) h = grind arith

pub Reach-IsLost : {s t : System} (p : ℕ) → Reach s t → IsLost p s → IsLost p t
Reach-IsLost p here h = h
Reach-IsLost p (later r st) h = Step-IsLost p st (Reach-IsLost p r h)

-- The state after the SIGUSR1 of `q`.
abbrev pub after_signal : ℕ → System → System
after_signal q s = record s {
  pending = sigusr1_handler q s.pending;
  phase = update s.phase q waiting;
}

-- If a second client signals while the first one waits and the server has not taken the first
-- one's pid yet, nor signalled it, the first one never connects, whatever comes after: its flag
-- stays down, so it can only time out.
pub overwritten_request :
    {t : System} (s : System) (p q : ℕ)
    → p ≢ 0
    → q ≢ p
    → s.phase p ≡ waiting
    → s.flag p ≡ false
    → held s.server ≢ p
    → Reach (after_signal q s) t
    → (t.phase p ≢ connected) × (t.flag p ≡ false)
unfolding update
overwritten_request s p q real other waits down not_held r =
    let lost : IsLost p (after_signal q s) = grind arith in
    let h = Reach-IsLost p r lost in (h.outside, h.not_ready)
