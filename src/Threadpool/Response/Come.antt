-- ===== src/Threadpool/Response/Come.antt =====
-- threadpool.c, responses that have come and wait in the window.
use comp_p.Common.{
  ℕ, zero, suc, ◌+◌, ◌<◌, ◌≤◌, ◌≡◌, ◌≢◌, refl, sym, ap, ◌∙◌, true, false, List, ◌==◌, ltb,
  Bool-cases, ◌⊎◌, inl, inr, Bytes, arith,
}
use comp_p.CString.{c_str}
use comp_p.ServerCommon.{ClientState, Response, empty_response, max_pending_responses, u64_mod}
use comp_p.Threadpool.Response.{
  Write, write_all, put_slot, slot_of, is_stopped, flush, is_out_of_window, store_response,
  free_response, next_response,
}
use comp_p.Threadpool.Response.Window.{IsWindow, next_ready, sent_one, inc_sent, sent_one-IsWindow}
use comp_p.Threadpool.Response.Order.{IsBuffer}

-- Response j has left, or waits in its slot.
abbrev pub HasCome : ℕ → ClientState → Type 0
HasCome j c =
    (j < c.responses_sent)
    ⊎ (((c.pending_responses (slot_of j)).ready ≡ true)
        × ((c.pending_responses (slot_of j)).seq_num ≡ j))

put_at : (k : ℕ) (r : Response) (slots : ℕ → Response) → put_slot k r slots k ≡ r
unfolding put_slot
put_at k r slots = ground arith

put_off : (k j : ℕ) (r : Response) (slots : ℕ → Response) → j ≢ k → put_slot k r slots j ≡ slots j
unfolding put_slot
put_off k j r slots ne = ground arith

pub stopped_next : (c : ClientState) → is_stopped c ≡ true → HasCome c.responses_sent c → ⊥
unfolding is_stopped
stopped_next c stop (inl less) = omega arith
stopped_next c stop (inr (ready, seq)) = ground arith

same_slot : (i j : ℕ) → slot_of i ≡ slot_of j → i ≤ j → j < i + max_pending_responses → i ≡ j
same_slot i j e low high = omega arith

sent_one-HasCome :
    (answer : ℕ → Bytes) (bound top j : ℕ) (c : ClientState)
    → bound + max_pending_responses < u64_mod
    → is_stopped c ≡ false
    → IsWindow answer bound top c
    → HasCome j c
    → HasCome j (sent_one c)
unfolding free_response
sent_one-HasCome answer bound top j c room go w (inl less) =
    let (inc, small_top, small_bound) = inc_sent answer bound top c room go w in inl (omega arith)
sent_one-HasCome answer bound top j c room go w (inr (ready, seq)) =
    let (inc, small_top, small_bound) = inc_sent answer bound top c room go w in
    elim (Bool-cases (slot_of j == slot_of c.responses_sent)) [
      | inr other ↦
          let same =
            put_off (slot_of c.responses_sent) (slot_of j) empty_response c.pending_responses
              (ground arith) in
          inr (ap (λ r. r.ready) same ∙ ready, ap (λ r. r.seq_num) same ∙ seq)
      | inl equal ↦
          let at : slot_of j ≡ slot_of c.responses_sent = ground arith in
          let now : j ≡ c.responses_sent =
            sym seq ∙ (ap (λ k. (c.pending_responses k).seq_num) at ∙ (next_ready c go).1) in
          inl (omega arith)
    ]

pub flush-HasCome :
    (answer : ℕ → Bytes) (bound top j fuel : ℕ) (calls : List Write) (c : ClientState)
    → bound + max_pending_responses < u64_mod
    → IsWindow answer bound top c
    → HasCome j c
    → HasCome j (flush fuel calls c).2 ⊎ ((flush fuel calls c).2.disconnected ≡ true)
unfolding flush
flush-HasCome answer bound top j zero calls c room w h = inl h
flush-HasCome answer bound top j (suc fuel) calls c room w h = elim (Bool-cases (is_stopped c)) [
  | inl stop ↦ rw (stop, flush) (inl h)
  | inr go ↦ elim (Bool-cases (write_all calls (c_str (next_response c).response_str)).1) [
    | inr bad ↦ rw (go, bad, flush) (inr refl)
    | inl ok ↦
        rw (go, ok, flush)
          (flush-HasCome answer bound top j fuel _ (sent_one c) room
            (sent_one-IsWindow answer bound top c room go w)
            (sent_one-HasCome answer bound top j c room go w h))
  ]
]

pub flush-fd :
    (fuel : ℕ) (calls : List Write) (c : ClientState)
    → (flush fuel calls c).2.fifo_s2c_fd ≡ c.fifo_s2c_fd
unfolding flush free_response
flush-fd zero calls c = refl
flush-fd (suc fuel) calls c = elim (Bool-cases (is_stopped c)) [
  | inl stop ↦ rw (stop, flush) refl
  | inr go ↦ elim (Bool-cases (write_all calls (c_str (next_response c).response_str)).1) [
    | inr bad ↦ rw (go, bad, flush) refl
    | inl ok ↦ rw (go, ok, flush) (flush-fd fuel _ _)
  ]
]

pub store-HasCome :
    (j s : ℕ) (str : Bytes) (c : ClientState)
    → is_out_of_window c s ≡ false
    → HasCome j c
    → HasCome j (store_response s str c)
unfolding store_response is_out_of_window
store-HasCome j s str c fits (inl less) = inl less
store-HasCome j s str c fits (inr (ready, seq)) =
    let free : (c.pending_responses (slot_of s)).ready ≡ false = ground arith in
    let other : slot_of j ≢ slot_of s =
      λ e. cc (ready, free, ap (λ k. (c.pending_responses k).ready) e) in
    let same =
      put_off (slot_of s) (slot_of j) (record { seq_num = s; response_str = str; ready = true })
        c.pending_responses other in
    inr (ap (λ r. r.ready) same ∙ ready, ap (λ r. r.seq_num) same ∙ seq)

pub stored-HasCome : (s : ℕ) (str : Bytes) (c : ClientState) → HasCome s (store_response s str c)
unfolding store_response
stored-HasCome s str c =
    let same =
      put_at (slot_of s) (record { seq_num = s; response_str = str; ready = true })
        c.pending_responses in
    inr (ap (λ r. r.ready) same, ap (λ r. r.seq_num) same)

slot_taken :
    (bound s : ℕ) (c : ClientState)
    → bound + max_pending_responses < u64_mod
    → c.responses_sent ≤ bound
    → s < c.responses_sent + max_pending_responses
    → c.responses_sent ≤ s
    → is_out_of_window c s ≡ true
    → (c.pending_responses (slot_of s)).ready ≡ true
unfolding is_out_of_window
slot_taken bound s c room small near low out = ground arith

-- A response that is thrown away near responses_sent has come before.
pub dropped-HasCome :
    (answer : ℕ → Bytes) (bound s : ℕ) (c : ClientState)
    → bound + max_pending_responses < u64_mod
    → IsBuffer answer bound c
    → s < c.responses_sent + max_pending_responses
    → is_out_of_window c s ≡ true
    → HasCome s c
dropped-HasCome answer bound s c room w near out = elim (Bool-cases (ltb s c.responses_sent)) [
  | inl past ↦ inl (ground arith)
  | inr ahead ↦
      let ready : (c.pending_responses (slot_of s)).ready ≡ true =
        slot_taken bound s c room w.sent_bound near (low ahead) out in
      let h = w.held (slot_of s) ready in
      inr (ready, omega (arith, h.unsent, h.below_top, h.at_slot, low ahead))
]
  where
    low : ltb s c.responses_sent ≡ false → c.responses_sent ≤ s
    low ahead = ground arith
