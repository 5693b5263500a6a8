-- ===== src/Threadpool/Response/Flush.antt =====
-- threadpool.c, the loop of send_ordered_response.
use mathlib.Core.List.{append-nil, append_assoc}
use comp_p.Common.{
  ℕ, zero, suc, ◌+◌, ◌<◌, ◌≤◌, ◌≡◌, refl, sym, ap, ◌∙◌, subst, true, false, List, [], ◌++◌,
  Bool-cases, ◌⊎◌, inl, inr, Bytes, arith,
}
use comp_p.CString.{c_str}
use comp_p.ServerCommon.{ClientState, max_pending_responses, u64_mod}
use comp_p.Threadpool.Response.{
  Write, write_all, free_response, slot_of, next_response, is_stopped, flush,
}
use comp_p.Threadpool.Response.Writes.{write_all-parts}
use comp_p.Threadpool.Response.Window.{
  answers, IsWindow, Log, Log-nil, sent_one, failed_one, next_ready, inc_sent, sent_one-IsWindow,
  failed_one-IsWindow,
}

next_text :
    (answer : ℕ → Bytes) (bound top : ℕ) (c : ClientState)
    → is_stopped c ≡ false
    → IsWindow answer bound top c
    → (next_response c).response_str ≡ answer c.responses_sent
next_text answer bound top c go w =
    let (ready, seq) = next_ready c go in
    (w.held (slot_of c.responses_sent) ready).text ∙ ap answer seq

-- The log of one response and of those after it.
Log-cons :
    (answer : ℕ → Bytes) (start : ℕ) (text out : Bytes) (c : ClientState)
    → text ≡ c_str (answer start)
    → Log answer (suc start) out c
    → Log answer start (text ++ out) c
unfolding answers
Log-cons answer start text out c e l = record {
  count = suc l.count;
  part = l.part;
  rest = l.rest;
  sent_at = omega (arith, l.sent_at);
  written =
      ap (λ t. t ++ out) e
      ∙ (ap (λ t. c_str (answer start) ++ t) l.written
          ∙ sym (append_assoc (c_str (answer start)) (answers answer (suc start) l.count) l.part));
  is_part = l.is_part;
  whole = l.whole;
}

Log-failed :
    (answer : ℕ → Bytes) (text out rest : Bytes) (c : ClientState)
    → text ≡ answer c.responses_sent
    → out ++ rest ≡ c_str text
    → Log answer c.responses_sent out (failed_one c)
unfolding answers free_response
Log-failed answer text out rest c e split = record {
  count = 0;
  part = out;
  rest = rest;
  sent_at = omega arith;
  written = refl;
  is_part = split ∙ ap c_str e;
  whole = λ h. absurd (cc);
}

whole_text : (text out rest : Bytes) → out ++ rest ≡ c_str text → rest ≡ [] → out ≡ c_str text
whole_text text out rest split e = sym (append-nil out) ∙ (ap (λ t. out ++ t) (sym e) ∙ split)

-- A flush writes a run of whole responses in order, and keeps the window.
pub flush-Log :
    (answer : ℕ → Bytes) (bound top fuel : ℕ) (calls : List Write) (c : ClientState)
    → bound + max_pending_responses < u64_mod
    → IsWindow answer bound top c
    → Log answer c.responses_sent (flush fuel calls c).0 (flush fuel calls c).2
      × IsWindow answer bound top (flush fuel calls c).2
unfolding flush
flush-Log answer bound top zero calls c room w = (Log-nil answer c, w)
flush-Log answer bound top (suc fuel) calls c room w = elim (Bool-cases (is_stopped c)) [
  | inl stop ↦ rw (stop, flush) (Log-nil answer c, w)
  | inr go ↦
      let text = (next_response c).response_str in
      let (rest, split, whole) = write_all-parts calls (c_str text) in
      let same = next_text answer bound top c go w in
      elim (Bool-cases (write_all calls (c_str text)).1) [
        | inl ok ↦
            let (inc, small_top, small_bound) = inc_sent answer bound top c room go w in
            let (l, w') =
              flush-Log answer bound top fuel (write_all calls (c_str text)).2 (sent_one c) room
                (sent_one-IsWindow answer bound top c room go w) in
            rw (go, ok, flush)
              (
                Log-cons answer c.responses_sent (write_all calls (c_str text)).0
                    (flush fuel (write_all calls (c_str text)).2 (sent_one c)).0
                    (flush fuel (write_all calls (c_str text)).2 (sent_one c)).2
                    (whole_text text (write_all calls (c_str text)).0 rest split (whole ok)
                      ∙ ap c_str same)
                    (subst
                      (λ n.
                        Log answer n (flush fuel (write_all calls (c_str text)).2 (sent_one c)).0
                          (flush fuel (write_all calls (c_str text)).2 (sent_one c)).2)
                      inc l),
                w',
              )
        | inr bad ↦
            rw (go, bad, flush)
              (
                Log-failed answer text (write_all calls (c_str text)).0 rest c same split,
                failed_one-IsWindow answer bound top c w,
              )
      ]
]

-- The loop of send_ordered_response ends: 1024 rounds are enough for a window of 1024.
pub flush-stops :
    (answer : ℕ → Bytes) (bound top fuel : ℕ) (calls : List Write) (c : ClientState)
    → bound + max_pending_responses < u64_mod
    → top ≤ fuel + c.responses_sent
    → IsWindow answer bound top c
    → (is_stopped (flush fuel calls c).2 ≡ true) ⊎ ((flush fuel calls c).2.disconnected ≡ true)
unfolding flush
flush-stops answer bound top zero calls c room enough w = elim (Bool-cases (is_stopped c)) [
  | inl stop ↦ inl stop
  | inr go ↦
      let (inc, small_top, small_bound) = inc_sent answer bound top c room go w in
      absurd (omega arith)
]
flush-stops answer bound top (suc fuel) calls c room enough w = elim (Bool-cases (is_stopped c)) [
  | inl stop ↦ rw (stop, flush) (inl stop)
  | inr go ↦ elim (Bool-cases (write_all calls (c_str (next_response c).response_str)).1) [
    | inr bad ↦ rw (go, bad, flush) (inr refl)
    | inl ok ↦
        let (inc, small_top, small_bound) = inc_sent answer bound top c room go w in
        rw (go, ok, flush)
          (flush-stops answer bound top fuel
            (write_all calls (c_str (next_response c).response_str)).2 (sent_one c) room
            (omega arith) (sent_one-IsWindow answer bound top c room go w))
  ]
]
