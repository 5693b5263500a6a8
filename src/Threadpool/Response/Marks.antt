-- ===== src/Threadpool/Response/Marks.antt =====
-- threadpool.c, send_ordered_response: which numbers the responses have that leave and that stay.
use comp_p.Common.{
  ℕ, zero, suc, ◌+◌, ◌<◌, ◌≤◌, ◌≡◌, refl, sym, ap, ◌∙◌, subst, true, false, ◌⊎◌, inl, inr, Bytes,
  ◌==◌, ==_iff, List, Bool-cases, arith,
}
use comp_p.CString.{c_str}
use comp_p.ServerCommon.{
  ClientState, Response, Request, empty_response, max_pending_responses, u64_mod,
}
use comp_p.Threadpool.Response.{
  Write, write_all, put_slot, slot_of, next_response, is_stopped, flush, is_closed,
  is_out_of_window, store_response, send_ordered_response, free_response,
}
use comp_p.Threadpool.Response.Window.{IsWindow, sent_one, next_ready, inc_sent, sent_one-IsWindow}
use comp_p.Threadpool.Response.Order.{IsBuffer, store-IsBuffer}

module _ (P : ℕ → Type 0) where
  -- Each response that waits has such a number.
  abbrev pub Marks : ClientState → Type 0
  Marks c = (k : ℕ) → (c.pending_responses k).ready ≡ true → P (c.pending_responses k).seq_num

  -- From `c` to `c'`: those that wait, those that have left, and the one at which a write has failed.
  pub record Marked (c c' : ClientState) : Type 0 where
    pub waits : Marks c'
    pub left : (k : ℕ) → c.responses_sent ≤ k → k < c'.responses_sent → P k
    pub torn : c'.disconnected ≡ true → (c.disconnected ≡ true) ⊎ P c'.responses_sent

  Marked-refl : (c : ClientState) → Marks c → Marked c c
  Marked-refl c m = record {
    waits = m;
    left = λ k low high. absurd (omega arith);
    torn = λ h. inl h;
  }

  put_empty :
      (k j : ℕ) (slots : ℕ → Response)
      → (put_slot k empty_response slots j).ready ≡ true
      → put_slot k empty_response slots j ≡ slots j
  unfolding put_slot
  put_empty k j slots h = ground arith

  freed-Marks : (n : ℕ) (c : ClientState) → Marks c → Marks (free_response n c)
  unfolding free_response
  freed-Marks n c m k ready =
      let same = put_empty n k c.pending_responses ready in
      subst P (ap (λ (r : Response). r.seq_num) (sym same))
        (m k (ap (λ (r : Response). r.ready) (sym same) ∙ ready))

  next-P : (c : ClientState) → is_stopped c ≡ false → Marks c → P c.responses_sent
  next-P c go m =
      let (ready, seq) = next_ready c go in subst P seq (m (slot_of c.responses_sent) ready)

  Marked-step :
      (c d : ClientState)
      → P c.responses_sent
      → (sent_one c).responses_sent ≡ suc c.responses_sent
      → Marked (sent_one c) d
      → Marked c d
  unfolding free_response
  Marked-step c d here inc m = record {
    waits = m.waits;
    left = λ k low high. from k low high;
    torn = m.torn;
  }
    where
      from : (k : ℕ) → c.responses_sent ≤ k → k < d.responses_sent → P k
      from k low high = elim (Bool-cases (k == c.responses_sent)) [
        | inl first ↦ subst P (sym ((==_iff k c.responses_sent).0 first)) here
        | inr after ↦ m.left k (ground (arith, after, inc)) high
      ]

  flush-Marked :
      (answer : ℕ → Bytes) (bound top fuel : ℕ) (calls : List Write) (c : ClientState)
      → bound + max_pending_responses < u64_mod
      → IsWindow answer bound top c
      → Marks c
      → Marked c (flush fuel calls c).2
  unfolding flush
  flush-Marked answer bound top zero calls c room w m = Marked-refl c m
  flush-Marked answer bound top (suc fuel) calls c room w m = elim (Bool-cases (is_stopped c)) [
    | inl stop ↦ rw (stop, flush) (Marked-refl c m)
    | inr go ↦
        let here = next-P c go m in
        let text = c_str (next_response c).response_str in
        elim (Bool-cases (write_all calls text).1) [
          | inr bad ↦
              rw (go, bad, flush)
                (record {
                  waits = freed-Marks (slot_of c.responses_sent) c m;
                  left = λ k low high. absurd (unfold free_response in omega arith);
                  torn = λ h. inr (unfold free_response in here);
                })
          | inl good ↦
              let (inc, small_top, small_bound) = inc_sent answer bound top c room go w in
              rw (go, good, flush)
                (Marked-step c _ here inc (
                  flush-Marked answer bound top fuel (write_all calls text).2 (sent_one c) room
                    (sent_one-IsWindow answer bound top c room go w)
                    (freed-Marks (slot_of c.responses_sent) c m)))
        ]
  ]

  put_here :
      (k j : ℕ) (r : Response) (slots : ℕ → Response)
      → (put_slot k r slots j ≡ r) ⊎ (put_slot k r slots j ≡ slots j)
  unfolding put_slot
  put_here k j r slots = ground arith

  store-Marks :
      (seq : ℕ) (text : Bytes) (c : ClientState)
      → P seq
      → Marks c
      → Marks (store_response seq text c)
  unfolding store_response
  store-Marks seq text c here m k ready =
      let new : Response = record { seq_num = seq; response_str = text; ready = true } in
      elim (put_here (slot_of seq) k new c.pending_responses) [
        | inl at ↦ subst P (ap (λ (r : Response). r.seq_num) (sym at)) here
        | inr off ↦
            subst P (ap (λ (r : Response). r.seq_num) (sym off))
              (m k (ap (λ (r : Response). r.ready) (sym off) ∙ ready))
      ]

  -- A reply, to the request of a number that `P` holds of.
  pub send-Marked :
      (answer : ℕ → Bytes) (bound : ℕ) (calls : List Write) (request : Request) (c : ClientState)
      → bound + max_pending_responses < u64_mod
      → request.request_seq_num < bound
      → IsBuffer answer bound c
      → P request.request_seq_num
      → Marks c
      → Marked c (send_ordered_response calls request (answer request.request_seq_num) c).2
  unfolding send_ordered_response store_response
  send-Marked answer bound calls request c room small w here m = elim (Bool-cases (is_closed c)) [
    | inl closed ↦ rw (closed, send_ordered_response) (Marked-refl c m)
    | inr opened ↦ elim (Bool-cases (is_out_of_window c request.request_seq_num)) [
      | inl out ↦ rw (opened, out, send_ordered_response) (Marked-refl c m)
      | inr fits ↦
          let seq = request.request_seq_num in
          let stored = store_response seq (answer seq) c in
          let f =
            flush-Marked answer bound (c.responses_sent + max_pending_responses)
              max_pending_responses calls stored room
              (store-IsBuffer answer bound seq c room small fits w)
              (store-Marks seq (answer seq) c here m) in
          rw (opened, fits, send_ordered_response)
            (record { waits = f.waits; left = f.left; torn = f.torn })
    ]
  ]

-- A reply leaves the numbers of the requests and the pid alone.
flush-received :
    (fuel : ℕ) (calls : List Write) (c : ClientState)
    → ((flush fuel calls c).2.requests_received ≡ c.requests_received)
      × ((flush fuel calls c).2.client_pid ≡ c.client_pid)
unfolding flush free_response
flush-received zero calls c = (refl, refl)
flush-received (suc fuel) calls c = elim (Bool-cases (is_stopped c)) [
  | inl stop ↦ rw (stop, flush) (refl, refl)
  | inr go ↦ elim (Bool-cases (write_all calls (c_str (next_response c).response_str)).1) [
    | inr bad ↦ rw (go, bad, flush) (refl, refl)
    | inl good ↦ rw (go, good, flush) (flush-received fuel _ (sent_one c))
  ]
]

pub send-received :
    (calls : List Write) (request : Request) (text : Bytes) (c : ClientState)
    → let c' = (send_ordered_response calls request text c).2 in
      (c'.requests_received ≡ c.requests_received) × (c'.client_pid ≡ c.client_pid)
unfolding send_ordered_response store_response
send-received calls request text c = elim (Bool-cases (is_closed c)) [
  | inl closed ↦ rw (closed, send_ordered_response) (refl, refl)
  | inr opened ↦ elim (Bool-cases (is_out_of_window c request.request_seq_num)) [
    | inl out ↦ rw (opened, out, send_ordered_response) (refl, refl)
    | inr fits ↦
        rw (opened, fits, send_ordered_response)
          (flush-received max_pending_responses calls
            (store_response request.request_seq_num text c))
  ]
]
