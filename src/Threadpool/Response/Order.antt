-- ===== src/Threadpool/Response/Order.antt =====
-- threadpool.c, the order in which responses leave.
use mathlib.Core.List.{append-nil, append_assoc}
use comp_p.Common.{
  ℕ, zero, suc, ◌+◌, ◌<◌, ◌≤◌, ◌≡◌, refl, sym, ap, ◌∙◌, subst, true, false, List, [], ◌∷◌, ◌++◌,
  Bool-cases, ◌⊎◌, inl, inr, All, Bytes, arith,
}
use comp_p.CString.{c_str}
use comp_p.ServerCommon.{ClientState, Response, Request, max_pending_responses, u64_mod}
use comp_p.Threadpool.Response.{
  Write, put_slot, slot_of, is_closed, is_out_of_window, store_response, send_ordered_response,
}
use comp_p.Threadpool.Response.Window.{answers, IsHeld, IsWindow, Log, Log-nil}
use comp_p.Threadpool.Response.Flush.{flush-Log}

-- The invariant between two replies: the window is the 1024 numbers from responses_sent on.
abbrev pub IsBuffer : (ℕ → Bytes) → ℕ → ClientState → Type 0
IsBuffer answer bound c = IsWindow answer bound (c.responses_sent + max_pending_responses) c

IsWindow-IsBuffer :
    (answer : ℕ → Bytes) (bound top : ℕ) (c : ClientState)
    → top ≤ c.responses_sent + max_pending_responses
    → IsWindow answer bound top c
    → IsBuffer answer bound c
IsWindow-IsBuffer answer bound top c h w = record {
  sent_bound = w.sent_bound;
  sent_top = omega arith;
  held = λ k ready.
      let x = w.held k ready in
      record {
        unsent = x.unsent;
        below_top = omega (arith, x.below_top);
        below_bound = x.below_bound;
        at_slot = x.at_slot;
        text = x.text;
      };
}

pub closed-disconnected : (c : ClientState) → is_closed c ≡ false → c.disconnected ≡ false
unfolding is_closed
closed-disconnected c h = ground arith

pub in_window :
    (c : ClientState) (bound seq : ℕ)
    → bound + max_pending_responses < u64_mod
    → c.responses_sent ≤ bound
    → is_out_of_window c seq ≡ false
    → (c.responses_sent ≤ seq) × (seq < c.responses_sent + max_pending_responses)
unfolding is_out_of_window
in_window c bound seq room small h = ground arith

put_ready :
    (k j : ℕ) (r : Response) (slots : ℕ → Response)
    → (j ≡ k) × (put_slot k r slots j ≡ r) ⊎ (put_slot k r slots j ≡ slots j)
unfolding put_slot
put_ready k j r slots = ground arith

pub store-IsBuffer :
    (answer : ℕ → Bytes) (bound seq : ℕ) (c : ClientState)
    → bound + max_pending_responses < u64_mod
    → seq < bound
    → is_out_of_window c seq ≡ false
    → IsBuffer answer bound c
    → IsBuffer answer bound (store_response seq (answer seq) c)
unfolding store_response
store-IsBuffer answer bound seq c room small h w =
    let (low, high) = in_window c bound seq room w.sent_bound h in
    let new : Response = record { seq_num = seq; response_str = answer seq; ready = true } in
    record {
      sent_bound = w.sent_bound;
      sent_top = w.sent_top;
      held = λ k ready. elim (put_ready (slot_of seq) k new c.pending_responses) [
        | inl (at, same) ↦
            subst
              (IsHeld answer c.responses_sent bound (c.responses_sent + max_pending_responses) k)
              (sym same)
              (record {
                unsent = low;
                below_top = high;
                below_bound = small;
                at_slot = sym at;
                text = refl;
              })
        | inr same ↦
            subst
              (IsHeld answer c.responses_sent bound (c.responses_sent + max_pending_responses) k)
              (sym same) (w.held k (ap (λ r. r.ready) (sym same) ∙ ready))
      ];
    }

-- One reply writes a run of whole responses in order, and keeps the window.
pub send-Log :
    (answer : ℕ → Bytes) (bound : ℕ) (calls : List Write) (request : Request) (c : ClientState)
    → bound + max_pending_responses < u64_mod
    → request.request_seq_num < bound
    → IsBuffer answer bound c
    → let sent = send_ordered_response calls request (answer request.request_seq_num) c in
      Log answer c.responses_sent sent.0 sent.2 × IsBuffer answer bound sent.2
unfolding send_ordered_response store_response
send-Log answer bound calls request c room small w = elim (Bool-cases (is_closed c)) [
  | inl closed ↦ rw (closed, send_ordered_response) (Log-nil answer c, w)
  | inr opened ↦ elim (Bool-cases (is_out_of_window c request.request_seq_num)) [
    | inl out ↦ rw (opened, out, send_ordered_response) (Log-nil answer c, w)
    | inr fits ↦
        let stored = store_response request.request_seq_num (answer request.request_seq_num) c in
        let (l, w') =
          flush-Log answer bound (c.responses_sent + max_pending_responses) max_pending_responses
            calls stored room
            (store-IsBuffer answer bound request.request_seq_num c room small fits w) in
        rw (opened, fits, send_ordered_response)
          (
            l,
            IsWindow-IsBuffer answer bound (c.responses_sent + max_pending_responses) _
                (omega (arith, l.sent_at)) w',
          )
  ]
]

abbrev pub reply_to : ClientState → ℕ → Request
reply_to c seq = record { client = c.client_pid; request_seq_num = seq; rpc_line = [] }

-- The workers reply to the requests in the order of the list: what the client reads, the calls of
-- write that are left, and the client's state.
unfoldable pub run_replies :
    (ℕ → Bytes) → List ℕ → List Write → ClientState → Bytes × List Write × ClientState
run_replies answer [] calls c = ([], calls, c)
run_replies answer (seq ∷ seqs) calls c =
    let (out, rest, c') = send_ordered_response calls (reply_to c seq) (answer seq) c in
    let (more, last, final) = run_replies answer seqs rest c' in (out ++ more, last, final)

answers-append :
    (answer : ℕ → Bytes) (start m n k : ℕ)
    → k ≡ start + m
    → answers answer start (m + n) ≡ answers answer start m ++ answers answer k n
unfolding answers
answers-append answer start zero n k e =
    ap (λ j. answers answer start j) no_more ∙ ap (λ j. answers answer j n) here
  where
    no_more : zero + n ≡ n
    no_more = omega arith

    here : start ≡ k
    here = omega arith
answers-append answer start (suc m) n k e =
    ap (λ j. answers answer start j) suc_add
    ∙ (ap (λ t. c_str (answer start) ++ t) (answers-append answer (suc start) m n k (omega arith))
        ∙ sym (
            append_assoc (c_str (answer start)) (answers answer (suc start) m)
              (answers answer k n)))
  where
    suc_add : suc m + n ≡ suc (m + n)
    suc_add = omega arith

-- The log of a connected client, continued.
pub Log-append :
    (answer : ℕ → Bytes) (start : ℕ) (out more : Bytes) (c c' : ClientState)
    → c.disconnected ≡ false
    → Log answer start out c
    → Log answer c.responses_sent more c'
    → Log answer start (out ++ more) c'
Log-append answer start out more c c' up l m = record {
  count = l.count + m.count;
  part = m.part;
  rest = m.rest;
  sent_at = omega (arith, l.sent_at, m.sent_at);
  written =
      ap (λ t. t ++ more) (l.written ∙ ap (λ t. answers answer start l.count ++ t) (l.whole up))
      ∙ (ap (λ t. t ++ more) (append-nil (answers answer start l.count))
          ∙ (ap (λ t. answers answer start l.count ++ t) m.written
              ∙ (sym (
                    append_assoc (answers answer start l.count)
                      (answers answer c.responses_sent m.count) m.part)
                  ∙ ap (λ t. t ++ m.part)
                      (sym (
                        answers-append answer start l.count m.count c.responses_sent l.sent_at)))));
  is_part = m.is_part;
  whole = m.whole;
}

-- A closed client gets nothing more.
pub replies-closed :
    (answer : ℕ → Bytes) (seqs : List ℕ) (calls : List Write) (c : ClientState)
    → is_closed c ≡ true
    → run_replies answer seqs calls c ≡ ([], calls, c)
unfolding run_replies send_ordered_response
replies-closed answer [] calls c h = refl
replies-closed answer (seq ∷ seqs) calls c h =
    rw (h, send_ordered_response) (replies-closed answer seqs calls c h)

-- The descriptor is of no account to a flush: only a failed write closes the client.
pub disconnected-closed : (c : ClientState) → c.disconnected ≡ true → is_closed c ≡ true
unfolding is_closed
disconnected-closed c h = ground arith

pub replies-Log_from :
    (answer : ℕ → Bytes) (bound : ℕ) (seqs : List ℕ) (calls : List Write) (c : ClientState)
    → bound + max_pending_responses < u64_mod
    → All (λ seq. seq < bound) seqs
    → IsBuffer answer bound c
    → let sent = run_replies answer seqs calls c in Log answer c.responses_sent sent.0 sent.2
unfolding run_replies
replies-Log_from answer bound [] calls c room small w = Log-nil answer c
replies-Log_from answer bound (seq ∷ seqs) calls c room small w =
    let sent = send_ordered_response calls (reply_to c seq) (answer seq) c in
    let (l, w') = send-Log answer bound calls (reply_to c seq) c room small.0 w in
    elim (Bool-cases sent.2.disconnected) [
      | inl down ↦
          rw
            (
              replies-closed answer seqs sent.1 sent.2 (disconnected-closed sent.2 down),
              append-nil sent.0,
            )
            l
      | inr up ↦
          Log-append answer c.responses_sent sent.0 _ sent.2 _ up l
            (replies-Log_from answer bound seqs sent.1 sent.2 room small.1 w')
    ]

pub fresh-IsBuffer :
    (answer : ℕ → Bytes) (bound : ℕ) (c : ClientState)
    → c.responses_sent ≡ 0
    → ((k : ℕ) → (c.pending_responses k).ready ≡ false)
    → IsBuffer answer bound c
fresh-IsBuffer answer bound c start empty = record {
  sent_bound = omega (arith, start);
  sent_top = omega arith;
  held = λ k h. absurd (cc (h, empty k));
}

-- The workers reply to the requests of a new client, with no response sent or waiting, in any
-- order, and write may split, delay or refuse any text: what the client reads is always the
-- responses to its requests 0, 1, 2, … in this order, each one once and whole, and where a write
-- has failed a front part of the next, after which nothing follows. The requests have numbers
-- below a bound that is more than 1024 short of 2^64.
pub replies-Log :
    (answer : ℕ → Bytes) (bound : ℕ) (seqs : List ℕ) (calls : List Write) (c : ClientState)
    → bound + max_pending_responses < u64_mod
    → All (λ seq. seq < bound) seqs
    → c.responses_sent ≡ 0
    → ((k : ℕ) → (c.pending_responses k).ready ≡ false)
    → let sent = run_replies answer seqs calls c in Log answer 0 sent.0 sent.2
replies-Log answer bound seqs calls c room small start empty =
    subst
      (λ n. Log answer n (run_replies answer seqs calls c).0 (run_replies answer seqs calls c).2)
      start
      (replies-Log_from answer bound seqs calls c room small
        (fresh-IsBuffer answer bound c start empty))
