-- ===== src/Service/Replied.antt =====
-- threadpool.c, worker_main and send_ordered_response: a worker sends the response of a request that
-- had none.
use comp_p.Common.{
  ℕ, ◌+◌, ◌<◌, ◌≡◌, ◌≢◌, ◌⊎◌, inl, inr, refl, sym, ap, subst, ◌∙◌, true, false, ◌==◌, ltb, ==_iff,
  List, [], ◌∷◌, ◌++◌, none, some, Bytes, Bool-cases, arith,
}
use mathlib.Core.List.{append-nil}
use comp_p.ServerCommon.{ClientState, Request, max_pending_responses, u64_mod}
use comp_p.Threadpool.Response.{Write, send_ordered_response}
use comp_p.Threadpool.Response.Window.{answers, Log}
use comp_p.Threadpool.Response.Order.{IsBuffer, send-Log, Log-append, disconnected-closed}
use comp_p.Threadpool.Response.Marks.{Marked, send-Marked, send-received}
use comp_p.Service.{put}
use comp_p.Service.Ledger.{Finished}
use comp_p.Service.Aside.{put_at}
use comp_p.Service.Order.{answers-eq, response_to, IsResponse, IsOrdered, Log-eq, IsBuffer-eq}

closed_nothing :
    (calls : List Write) (r : Request) (text : Bytes) (c : ClientState)
    → c.disconnected ≡ true
    → send_ordered_response calls r text c ≡ ([], calls, c)
unfolding send_ordered_response
closed_nothing calls r text c closed = rw (disconnected-closed c closed, send_ordered_response) refl

-- A reply to a request that had none before.
module _ (pid : ℕ) (fin : List Finished) (r : Request) (t : Bytes) (owner : r.client ≡ pid)
    (new : response_to pid r.request_seq_num fin ≡ none) where
  abbrev fin_with : List Finished
  fin_with = record { request = r; response = some t } ∷ fin

  known_self : response_to pid r.request_seq_num fin_with ≡ some t
  unfolding response_to
  known_self =
      let e = (==_iff r.request_seq_num r.request_seq_num).1 refl in
      let p : (r.client == pid) ≡ true = (==_iff r.client pid).1 owner in rw (p, e) refl

  known_other : (n : ℕ) → n ≢ r.request_seq_num → response_to pid n fin_with ≡ response_to pid n fin
  unfolding response_to
  known_other n other = ground arith

  module _ (answer : ℕ → Bytes) where
    abbrev answer_with : ℕ → Bytes
    answer_with = put r.request_seq_num t answer

    answer_with_self : answer_with r.request_seq_num ≡ t
    unfolding put
    answer_with_self = rw ((==_iff r.request_seq_num r.request_seq_num).1 refl) refl

    known :
        (n : ℕ)
        → IsResponse pid fin answer n
        → IsResponse pid fin_with answer_with n × (answer n ≡ answer_with n)
    known n old = elim (put_at r.request_seq_num n t answer) [
      | inl (same, at) ↦ absurd (cc (same, new, old))
      | inr (other, off) ↦ (known_other n other ∙ (old ∙ ap some (sym off)), sym off)
    ]

    known_new : IsResponse pid fin_with answer_with r.request_seq_num
    known_new = known_self ∙ ap some (sym answer_with_self)

  -- The worker sends the response.
  pub reply-IsOrdered :
      (calls : List Write) (out : Bytes) (c : ClientState)
      → c.requests_received + max_pending_responses < u64_mod
      → r.request_seq_num < c.requests_received
      → IsOrdered pid fin out c
      → let sent = send_ordered_response calls r t c in
        IsOrdered pid fin_with (out ++ sent.0) sent.2
  reply-IsOrdered calls out c room small o =
      subst
        (λ text.
          let sent = send_ordered_response calls r text c in
          IsOrdered pid fin_with (out ++ sent.0) sent.2)
        (answer_with_self o.answer)
        (record {
          answer = answer;
          buffer = subst (λ n. IsBuffer answer n sent.2) (sym received) l.1;
          log = log (Bool-cases c.disconnected);
          waits = m.waits;
          left = λ k low. elim (Bool-cases (ltb k c.responses_sent)) [
            | inl before ↦ (known o.answer k (o.left k (ground arith))).0
            | inr after ↦ m.left k (ground arith) low
          ];
          torn = λ down. elim (Bool-cases c.disconnected) [
            | inl closed ↦
                subst
                  (λ x. (out ++ x.0 ≡ answers answer 0 x.2.responses_sent) ⊎ P x.2.responses_sent)
                  (sym (nothing closed)) (as_before (o.torn closed))
            | inr up ↦ elim (m.torn down) [
              | inl closed ↦ absurd (cc (closed, up))
              | inr next ↦ inr next
            ]
          ];
        })
    where
      answer : ℕ → Bytes
      answer = answer_with o.answer

      P : ℕ → Type 0
      P n = IsResponse pid fin_with answer n

      sent : Bytes × List Write × ClientState
      sent = send_ordered_response calls r (answer r.request_seq_num) c

      received : sent.2.requests_received ≡ c.requests_received
      received = (send-received calls r (answer r.request_seq_num) c).0

      buffer : IsBuffer answer c.requests_received c
      buffer =
          IsBuffer-eq o.answer answer c c.requests_received
            (λ k ready. (known o.answer (c.pending_responses k).seq_num (o.waits k ready)).1)
            o.buffer

      before_log : Log answer 0 out c
      before_log =
          Log-eq o.answer answer c out (λ k low. (known o.answer k (o.left k low)).1)
            (λ down. elim (o.torn down) [
              | inl whole ↦ inl whole
              | inr next ↦ inr (known o.answer c.responses_sent next).1
            ])
            o.log

      l : Log answer c.responses_sent sent.0 sent.2 × IsBuffer answer c.requests_received sent.2
      l = send-Log answer c.requests_received calls r c room small buffer

      m : Marked P c sent.2
      m =
          send-Marked P answer c.requests_received calls r c room small buffer (known_new o.answer)
            (λ k ready. (known o.answer (c.pending_responses k).seq_num (o.waits k ready)).0)

      nothing : c.disconnected ≡ true → sent ≡ ([], calls, c)
      nothing closed = closed_nothing calls r (answer r.request_seq_num) c closed

      as_before :
          (out ≡ answers o.answer 0 c.responses_sent) ⊎ IsResponse pid fin o.answer c.responses_sent
          → (out ++ [] ≡ answers answer 0 c.responses_sent) ⊎ P c.responses_sent
      as_before (inl whole) = inl (
          append-nil out
          ∙ (whole
              ∙ answers-eq o.answer answer 0 c.responses_sent
                  (λ k low high. (known o.answer k (o.left k (omega (arith, high)))).1)))
      as_before (inr next) = inr (known o.answer c.responses_sent next).0

      log : (c.disconnected ≡ true) ⊎ (c.disconnected ≡ false) → Log answer 0 (out ++ sent.0) sent.2
      log (inl closed) =
          subst (λ x. Log answer 0 (out ++ x.0) x.2) (sym (nothing closed))
            (subst (λ t. Log answer 0 t c) (sym (append-nil out)) before_log)
      log (inr up) = Log-append answer 0 out sent.0 c sent.2 up before_log l.0
