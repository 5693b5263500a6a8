-- ===== src/Threadpool/Response/Missing.antt =====
-- threadpool.c, a response that has not come.
use comp_p.Common.{
  ℕ, zero, suc, ◌<◌, ◌≤◌, ◌≡◌, ◌≢◌, ◌∙◌, true, false, List, [], ◌∷◌, Bool-cases, ◌⊎◌, inl, inr, All,
  Bytes, arith,
}
use comp_p.CString.{c_str}
use comp_p.ServerCommon.{
  ClientState, Response, Request, empty_response, max_pending_responses, u64_mod,
}
use comp_p.Threadpool.Response.{
  Write, write_all, put_slot, slot_of, is_stopped, flush, is_closed, is_out_of_window,
  store_response, send_ordered_response, free_response, next_response,
}
use comp_p.Threadpool.Response.Window.{next_ready}
use comp_p.Threadpool.Response.Order.{run_replies, reply_to}

-- Response n has not come: it has not been sent, and no slot holds it.
pub record IsMissing (n : ℕ) (c : ClientState) : Type 0 where
  pub unsent : c.responses_sent ≤ n
  pub no_slot : (k : ℕ) → (c.pending_responses k).ready ≡ true → (c.pending_responses k).seq_num ≢ n

put_cases :
    (k j : ℕ) (r : Response) (slots : ℕ → Response)
    → (put_slot k r slots j ≡ r) ⊎ (put_slot k r slots j ≡ slots j)
unfolding put_slot
put_cases k j r slots = ground arith

put-no_slot :
    (n k : ℕ) (r : Response) (slots : ℕ → Response)
    → (r.ready ≡ true → r.seq_num ≢ n)
    → ((j : ℕ) → (slots j).ready ≡ true → (slots j).seq_num ≢ n)
    → (j : ℕ) → (put_slot k r slots j).ready ≡ true
    → (put_slot k r slots j).seq_num ≢ n
put-no_slot n k r slots new old j = elim (put_cases k j r slots) [
  | inl same ↦ rw same new
  | inr same ↦ rw same (old j)
]

-- A flush does not pass a response that is missing.
flush-IsMissing :
    (n fuel : ℕ) (calls : List Write) (c : ClientState)
    → n < u64_mod
    → IsMissing n c
    → IsMissing n (flush fuel calls c).2
unfolding flush free_response
flush-IsMissing n zero calls c b m = m
flush-IsMissing n (suc fuel) calls c b m = elim (Bool-cases (is_stopped c)) [
  | inl stop ↦ rw (stop, flush) m
  | inr go ↦
      let (ready, seq) = next_ready c go in
      let ne : c.responses_sent ≢ n = λ e. m.no_slot (slot_of c.responses_sent) ready (seq ∙ e) in
      let freed =
        put-no_slot n (slot_of c.responses_sent) empty_response c.pending_responses
          (λ h. absurd (cc)) m.no_slot in
      elim (Bool-cases (write_all calls (c_str (next_response c).response_str)).1) [
        | inr bad ↦ rw (go, bad, flush) (record { unsent = m.unsent; no_slot = freed })
        | inl ok ↦
            rw (go, ok, flush)
              (flush-IsMissing n fuel _ _ b
                (record { unsent = omega (arith, m.unsent, ne); no_slot = freed }))
      ]
]

send-IsMissing :
    (n : ℕ) (calls : List Write) (request : Request) (str : Bytes) (c : ClientState)
    → n < u64_mod
    → request.request_seq_num ≢ n
    → IsMissing n c
    → IsMissing n (send_ordered_response calls request str c).2
unfolding send_ordered_response store_response
send-IsMissing n calls request str c b ne m = elim (Bool-cases (is_closed c)) [
  | inl closed ↦ rw (closed, send_ordered_response) m
  | inr opened ↦ elim (Bool-cases (is_out_of_window c request.request_seq_num)) [
    | inl out ↦ rw (opened, out, send_ordered_response) m
    | inr fits ↦
        rw (opened, fits, send_ordered_response)
          (flush-IsMissing n max_pending_responses calls
            (store_response request.request_seq_num str c) b
            (record {
              unsent = m.unsent;
              no_slot =
                  put-no_slot n (slot_of request.request_seq_num) _ c.pending_responses (λ h. ne)
                    m.no_slot;
            }))
  ]
]

pub replies-IsMissing :
    (answer : ℕ → Bytes) (n : ℕ) (seqs : List ℕ) (calls : List Write) (c : ClientState)
    → n < u64_mod
    → All (λ seq. seq ≢ n) seqs
    → IsMissing n c
    → IsMissing n (run_replies answer seqs calls c).2
unfolding run_replies
replies-IsMissing answer n [] calls c b ne m = m
replies-IsMissing answer n (seq ∷ seqs) calls c b ne m =
    replies-IsMissing answer n seqs _ _ b ne.1
      (send-IsMissing n calls (reply_to c seq) (answer seq) c b ne.0 m)

pub fresh-IsMissing :
    (n : ℕ) (c : ClientState)
    → c.responses_sent ≡ 0
    → ((k : ℕ) → (c.pending_responses k).ready ≡ false)
    → IsMissing n c
fresh-IsMissing n c start empty = record {
  unsent = omega (arith, start);
  no_slot = λ k h. absurd (cc (h, empty k));
}
