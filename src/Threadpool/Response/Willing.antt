-- ===== src/Threadpool/Response/Willing.antt =====
-- threadpool.c, send_ordered_response where no call of write fails.
use comp_p.CString.{c_str}
use comp_p.Common.{ℕ, zero, suc, ◌≡◌, true, List, [], ◌∷◌, Bool-cases, ◌⊎◌, inl, inr, Bytes}
use comp_p.ServerCommon.{ClientState, Request, max_pending_responses}
use comp_p.Threadpool.Response.{
  Write, write_all, next_response, free_response, is_stopped, flush, is_closed, is_out_of_window,
  store_response, send_ordered_response,
}
use comp_p.Threadpool.Response.Window.{sent_one}
use comp_p.Threadpool.Response.Writes.{NeverFails, write_all-NeverFails}
use comp_p.Threadpool.Response.Order.{run_replies, reply_to, replies-closed, disconnected-closed}

flush-NeverFails :
    (fuel : ℕ) (calls : List Write) (c : ClientState)
    → NeverFails calls
    → let (out, left, c') = flush fuel calls c in
      NeverFails left × (c'.disconnected ≡ true → (c.disconnected ≡ true) ⊎ (left ≡ []))
unfolding flush free_response
flush-NeverFails zero calls c h = (h, λ down. inl down)
flush-NeverFails (suc fuel) calls c h = elim (Bool-cases (is_stopped c)) [
  | inl stop ↦ rw (stop, flush) (h, λ down. inl down)
  | inr go ↦
      let (left, used) = write_all-NeverFails calls (c_str (next_response c).response_str) h in
      elim (Bool-cases (write_all calls (c_str (next_response c).response_str)).1) [
        | inr bad ↦ rw (go, bad, flush) (left, λ down. inr (used bad))
        | inl ok ↦
            rw (go, ok, flush)
              (flush-NeverFails fuel (write_all calls (c_str (next_response c).response_str)).2
                (sent_one c) left)
      ]
]

send-NeverFails :
    (calls : List Write) (request : Request) (str : Bytes) (c : ClientState)
    → NeverFails calls
    → let (out, left, c') = send_ordered_response calls request str c in
      NeverFails left × (c'.disconnected ≡ true → (c.disconnected ≡ true) ⊎ (left ≡ []))
unfolding send_ordered_response store_response
send-NeverFails calls request str c h = elim (Bool-cases (is_closed c)) [
  | inl closed ↦ rw (closed, send_ordered_response) (h, λ down. inl down)
  | inr opened ↦ elim (Bool-cases (is_out_of_window c request.request_seq_num)) [
    | inl out ↦ rw (opened, out, send_ordered_response) (h, λ down. inl down)
    | inr fits ↦
        rw (opened, fits, send_ordered_response)
          (flush-NeverFails max_pending_responses calls
            (store_response request.request_seq_num str c) h)
  ]
]

-- Where no call of write fails, a client is disconnected only when the calls have been used up.
pub replies-NeverFails :
    (answer : ℕ → Bytes) (seqs : List ℕ) (calls : List Write) (c : ClientState)
    → NeverFails calls
    → let (out, left, c') = run_replies answer seqs calls c in
      c'.disconnected ≡ true → (c.disconnected ≡ true) ⊎ (left ≡ [])
unfolding run_replies
replies-NeverFails answer [] calls c h = λ down. inl down
replies-NeverFails answer (s ∷ seqs) calls c h =
    let sent = send_ordered_response calls (reply_to c s) (answer s) c in
    let (left, used) = send-NeverFails calls (reply_to c s) (answer s) c h in
    elim (Bool-cases sent.2.disconnected) [
      | inl down ↦
          rw (replies-closed answer seqs sent.1 sent.2 (disconnected-closed sent.2 down))
            (λ again. used down)
      | inr up ↦ λ down. elim (replies-NeverFails answer seqs sent.1 sent.2 left down) [
        | inl old ↦ absurd (cc (up, old))
        | inr none_left ↦ inr none_left
      ]
    ]
