-- ===== src/Service/Order.antt =====
-- threadpool.c, worker_main and send_ordered_response: what a client reads, step by step.
use comp_p.Common.{
  ℕ, zero, suc, ◌+◌, ◌<◌, ◌≤◌, ◌≡◌, ◌⊎◌, inl, inr, refl, sym, ap, subst, ◌∙◌, true, false, List, [],
  ◌∷◌, ◌++◌, Option, none, some, if◌then◌else◌, Bytes, Bool-cases, arith,
}
use mathlib.Core.List.{append-nil}
use comp_p.CString.{c_str}
use comp_p.ServerCommon.{ClientState, Response, max_pending_responses}
use comp_p.Threadpool.Response.Window.{answers, IsHeld, Log}
use comp_p.Threadpool.Response.Order.{IsBuffer}
use comp_p.Threadpool.Response.Marks.{Marks}
use comp_p.Service.Ledger.{Finished}
use comp_p.Service.Unique.{has_number}

-- The response that was sent for the client's request of that number.
unfoldable pub response_to : ℕ → ℕ → List Finished → Option Bytes
response_to pid seq [] = none
response_to pid seq (f ∷ fs) =
    let rest = response_to pid seq fs in if has_number pid seq f.request then f.response else rest

-- `answer` gives the response to the request of that number.
abbrev pub IsResponse : ℕ → List Finished → (ℕ → Bytes) → ℕ → Type 0
IsResponse pid fin answer n = response_to pid n fin ≡ some (answer n)

-- What the client has read, what waits for it, and what will: its own responses in order.
pub record IsOrdered (pid : ℕ) (fin : List Finished) (out : Bytes) (c : ClientState) : Type 0 where
  pub answer : ℕ → Bytes
  pub buffer : IsBuffer answer c.requests_received c
  pub log : Log answer 0 out c
  pub waits : Marks (IsResponse pid fin answer) c
  pub left : (k : ℕ) → k < c.responses_sent → IsResponse pid fin answer k
  pub torn :
      c.disconnected ≡ true
      → (out ≡ answers answer 0 c.responses_sent) ⊎ IsResponse pid fin answer c.responses_sent

pub answers-eq :
    (a b : ℕ → Bytes) (start n : ℕ)
    → ((k : ℕ) → start ≤ k → k < start + n → a k ≡ b k)
    → answers a start n ≡ answers b start n
unfolding answers
answers-eq a b start zero h = refl
answers-eq a b start (suc n) h =
    rw
      (
        h start (omega arith) (omega arith),
        answers-eq a b (suc start) n (λ k low high. h k (omega arith) (omega arith)),
      )
      refl

-- All of what a connected client has read is whole.
whole-Log :
    (answer : ℕ → Bytes) (out : Bytes) (c : ClientState)
    → Log answer 0 out c
    → c.disconnected ≡ false
    → out ≡ answers answer 0 c.responses_sent
whole-Log answer out c l up =
    let count : l.count ≡ c.responses_sent = omega (arith, l.sent_at) in
    l.written
    ∙ (ap (λ t. answers answer 0 l.count ++ t) (l.whole up)
        ∙ (append-nil (answers answer 0 l.count) ∙ ap (answers answer 0) count))

-- Two functions that agree on what has left and on what waits.
module _ (a b : ℕ → Bytes) (c : ClientState) where
  pub Log-eq :
      (out : Bytes)
      → ((k : ℕ) → k < c.responses_sent → a k ≡ b k)
      → (c.disconnected ≡ true
          → (out ≡ answers a 0 c.responses_sent) ⊎ (a c.responses_sent ≡ b c.responses_sent))
      → Log a 0 out c
      → Log b 0 out c
  Log-eq out same next l = elim (Bool-cases c.disconnected) [
    | inl down ↦ elim (next down) [ inl all ↦ whole all | inr equal ↦ torn equal ]
    | inr up ↦ whole (whole-Log a out c l up)
  ]
    where
      whole : out ≡ answers a 0 c.responses_sent → Log b 0 out c
      whole all = record {
        count = c.responses_sent;
        part = [];
        rest = c_str (b c.responses_sent);
        sent_at = omega arith;
        written =
            all
            ∙ (answers-eq a b 0 c.responses_sent (λ k low high. same k (omega (arith, high)))
                ∙ sym (append-nil (answers b 0 c.responses_sent)));
        is_part = refl;
        whole = λ h. refl;
      }

      torn : a c.responses_sent ≡ b c.responses_sent → Log b 0 out c
      torn equal = record {
        count = l.count;
        part = l.part;
        rest = l.rest;
        sent_at = l.sent_at;
        written =
            l.written
            ∙ ap (λ t. t ++ l.part)
                (answers-eq a b 0 l.count (λ k low high. same k (omega (arith, l.sent_at, high))));
        is_part = l.is_part ∙ ap c_str equal;
        whole = l.whole;
      }

  pub IsBuffer-eq : (bound : ℕ) → Marks (λ n. a n ≡ b n) c → IsBuffer a bound c → IsBuffer b bound c
  IsBuffer-eq bound same w = record {
    sent_bound = w.sent_bound;
    sent_top = w.sent_top;
    held = λ k ready.
        let h = w.held k ready in
        record {
          unsent = h.unsent;
          below_top = h.below_top;
          below_bound = h.below_bound;
          at_slot = h.at_slot;
          text = h.text ∙ same k ready;
        };
  }

-- A client that keeps its pending responses, and may have more requests.
pub kept-IsOrdered :
    (pid : ℕ) (fin : List Finished) (out : Bytes) (c d : ClientState)
    → c.requests_received ≤ d.requests_received
    → d.responses_sent ≡ c.responses_sent
    → d.pending_responses ≡ c.pending_responses
    → (d.disconnected ≡ false → c.disconnected ≡ false)
    → IsOrdered pid fin out c
    → IsOrdered pid fin out d
kept-IsOrdered pid fin out c d more sent pending mark o = record {
  answer = o.answer;
  buffer = record {
    sent_bound = omega (arith, sent, more, o.buffer.sent_bound);
    sent_top = omega arith;
    held = λ k ready.
        let h = o.buffer.held k (was_ready k ready) in
        subst
          (IsHeld o.answer d.responses_sent d.requests_received
            (d.responses_sent + max_pending_responses) k)
          (sym (at k))
          (record {
            unsent = omega (arith, sent, h.unsent);
            below_top = omega (arith, sent, h.below_top);
            below_bound = omega (arith, more, h.below_bound);
            at_slot = h.at_slot;
            text = h.text;
          });
  };
  log = record {
    count = o.log.count;
    part = o.log.part;
    rest = o.log.rest;
    sent_at = sent ∙ o.log.sent_at;
    written = o.log.written;
    is_part = o.log.is_part ∙ ap (λ n. c_str (o.answer n)) (sym sent);
    whole = λ h. o.log.whole (mark h);
  };
  waits = λ k ready.
      subst (λ (r : Response). IsResponse pid fin o.answer r.seq_num) (sym (at k))
        (o.waits k (was_ready k ready));
  left = λ k low. o.left k (omega (arith, sent, low));
  torn = λ down.
      subst (λ n. (out ≡ answers o.answer 0 n) ⊎ IsResponse pid fin o.answer n) (sym sent)
        (elim (Bool-cases c.disconnected) [
          | inl before ↦ o.torn before
          | inr up ↦ inl (whole-Log o.answer out c o.log up)
        ]);
}
  where
    at : (k : ℕ) → d.pending_responses k ≡ c.pending_responses k
    at k = ap (λ (f : ℕ → Response). f k) pending

    was_ready :
        (k : ℕ) → (d.pending_responses k).ready ≡ true → (c.pending_responses k).ready ≡ true
    was_ready k ready = ap (λ (r : Response). r.ready) (sym (at k)) ∙ ready

-- The same responses, in a longer list.
pub other-IsOrdered :
    (pid : ℕ) (fin new : List Finished) (out : Bytes) (c : ClientState)
    → ((n : ℕ) → response_to pid n new ≡ response_to pid n fin)
    → IsOrdered pid fin out c
    → IsOrdered pid new out c
other-IsOrdered pid fin new out c same o = record {
  answer = o.answer;
  buffer = o.buffer;
  log = o.log;
  waits = λ k ready. same (c.pending_responses k).seq_num ∙ o.waits k ready;
  left = λ k low. same k ∙ o.left k low;
  torn = λ down. elim (o.torn down) [
    | inl whole ↦ inl whole
    | inr next ↦ inr (same c.responses_sent ∙ next)
  ];
}
