-- ===== src/Threadpool/Response/Delivery.antt =====
-- threadpool.c, responses that are missing.
use mathlib.Core.List.{append_assoc}
use comp_p.Common.{
  ℕ, ap, ◌==◌, if◌then◌else◌, zero, suc, ◌+◌, ◌<◌, ◌≤◌, ◌≡◌, ◌≢◌, refl, sym, ◌∙◌, subst, false,
  List, [], ◌∷◌, ◌++◌, Bool-cases, inl, inr, All, All-append, Bytes, arith,
}
use comp_p.CString.{c_str}
use comp_p.ServerCommon.{ClientState, max_pending_responses, u64_mod}
use comp_p.Threadpool.Response.{Write, is_out_of_window, send_ordered_response}
use comp_p.Threadpool.Response.Window.{answers, Log}
use comp_p.Threadpool.Response.Missing.{IsMissing, replies-IsMissing, fresh-IsMissing}
use comp_p.Threadpool.Response.Order.{run_replies, reply_to, replies-Log}

replies-append :
    (answer : ℕ → Bytes) (xs ys : List ℕ) (calls : List Write) (c : ClientState)
    → let before = run_replies answer xs calls c in
      let after = run_replies answer ys before.1 before.2 in
      run_replies answer (xs ++ ys) calls c ≡ (before.0 ++ after.0, after.1, after.2)
unfolding run_replies
replies-append answer [] ys calls c = refl
replies-append answer (x ∷ xs) ys calls c =
    let (out, rest, c') = send_ordered_response calls (reply_to c x) (answer x) c in
    let before = run_replies answer xs rest c' in
    let after = run_replies answer ys before.1 before.2 in
    rw (replies-append answer xs ys rest c') (rw (append_assoc out before.0 after.0) refl)

-- A response 1024 or more ahead of one that is missing is thrown away.
send_too_early :
    (m s : ℕ) (calls : List Write) (str : Bytes) (c : ClientState)
    → m + max_pending_responses ≤ s
    → s < u64_mod
    → IsMissing m c
    → send_ordered_response calls (reply_to c s) str c ≡ ([], calls, c)
unfolding send_ordered_response is_out_of_window
send_too_early m s calls str c far b v = ground (arith, v.unsent)

-- The answers, with an empty one to request s.
unfoldable without : ℕ → (ℕ → Bytes) → ℕ → Bytes
without s answer j = if j == s then [] else answer j

replies-without :
    (s : ℕ) (answer : ℕ → Bytes) (seqs : List ℕ) (calls : List Write) (c : ClientState)
    → All (λ seq. seq ≢ s) seqs
    → run_replies answer seqs calls c ≡ run_replies (without s answer) seqs calls c
unfolding run_replies
replies-without s answer [] calls c ne = refl
replies-without s answer (seq ∷ seqs) calls c ne =
    let (out, rest, c') = send_ordered_response calls (reply_to c seq) (answer seq) c in
    let same : without s answer seq ≡ answer seq = unfold without in ground (arith, ne.0) in
    rw same (rw (replies-without s answer seqs rest c' ne.1) refl)

answers-without :
    (s : ℕ) (answer : ℕ → Bytes) (start n : ℕ)
    → start + n ≤ s
    → answers (without s answer) start n ≡ answers answer start n
unfolding answers without
answers-without s answer start zero h = refl
answers-without s answer start (suc n) h =
    let same : without s answer start ≡ answer start = ground arith in
    rw same
      (ap (◌++◌ (c_str (answer start))) (answers-without s answer (suc start) n (omega arith)))

-- What a client has read of the first `s` responses.
pub record IsBefore (answer : ℕ → Bytes) (s : ℕ) (out : Bytes) (c : ClientState) : Type 0 where
  pub count : ℕ
  pub part : Bytes
  pub rest : Bytes
  pub sent_at : c.responses_sent ≡ count
  pub stays : count ≤ s
  pub written : out ≡ answers answer 0 count ++ part
  pub is_part : part ++ rest ≡ c_str (answer count)
  pub none_of_s : count ≡ s → part ≡ []

-- For a new client, with no response sent or waiting, and requests with numbers below a bound that
-- is more than 1024 short of 2^64: if the reply to request s comes while an earlier request m with
-- m + 1024 ≤ s has no reply, and no other reply is to s, then all is as if that reply had not been
-- made. The client reads responses before s, in order, whole up to a front part of the last, and
-- neither a byte of response s nor one of a later response, whatever the workers reply afterwards to
-- other requests.
pub too_early_stalls :
    (answer : ℕ → Bytes) (bound m s : ℕ) (sooner later : List ℕ) (calls : List Write)
    (c : ClientState)
    → bound + max_pending_responses < u64_mod
    → All (λ seq. seq < bound) sooner
    → All (λ seq. seq < bound) later
    → c.responses_sent ≡ 0
    → ((k : ℕ) → (c.pending_responses k).ready ≡ false)
    → m + max_pending_responses ≤ s
    → s < bound
    → All (λ seq. seq ≢ m) sooner
    → All (λ seq. seq ≢ s) sooner
    → All (λ seq. seq ≢ s) later
    → let sent = run_replies answer (sooner ++ s ∷ later) calls c in
      (sent ≡ run_replies answer (sooner ++ later) calls c) × IsBefore answer s sent.0 sent.2
unfolding run_replies without
too_early_stalls answer bound m s sooner later calls c room small_x small_y start empty far b no_m
      no_s no_later =
    let before = run_replies answer sooner calls c in
    let miss_m =
      replies-IsMissing answer m sooner calls c (omega arith) no_m
        (fresh-IsMissing m c start empty) in
    let dropped = send_too_early m s before.1 (answer s) before.2 far (omega arith) miss_m in
    let same : run_replies answer (sooner ++ s ∷ later) calls c
        ≡ run_replies answer (sooner ++ later) calls c =
      replies-append answer sooner (s ∷ later) calls c
      ∙ (rw dropped refl ∙ sym (replies-append answer sooner later calls c)) in
    (
      same,
      subst (λ (t : Bytes × List Write × ClientState). IsBefore answer s t.0 t.2) (sym same) rest,
    )
  where
    all : List ℕ
    all = sooner ++ later

    no : All (λ seq. seq ≢ s) all
    no = All-append (λ seq. seq ≢ s) sooner later no_s no_later

    kept : run_replies answer all calls c ≡ run_replies (without s answer) all calls c
    kept = replies-without s answer all calls c no

    l :
        Log
          (without s answer)
          0
          (run_replies (without s answer) all calls c).0
          (run_replies (without s answer) all calls c).2
    l =
        replies-Log (without s answer) bound all calls c room
          (All-append (λ seq. seq < bound) sooner later small_x small_y) start empty

    final : ClientState
    final = (run_replies (without s answer) all calls c).2

    at_count : final.responses_sent ≡ l.count
    at_count = omega (arith, l.sent_at)

    stays : final.responses_sent ≤ s
    stays =
        (replies-IsMissing (without s answer) s all calls c (omega arith) no
          (fresh-IsMissing s c start empty)).unsent

    text : (n : ℕ) → n ≢ s → c_str (without s answer n) ≡ c_str (answer n)
    text n ne = ap c_str {x = without s answer n} {y = answer n} (ground arith)

    empty_part : (p r : Bytes) → p ++ r ≡ [] → p ≡ []
    empty_part [] r e = refl
    empty_part (x ∷ p) r e = cc e

    at_s : (n : ℕ) → n ≡ s → without s answer n ≡ []
    at_s n e = ground arith

    no_part : final.responses_sent ≡ s → l.part ≡ []
    no_part e =
        empty_part l.part l.rest
          (l.is_part ∙ (ap c_str (at_s final.responses_sent e) ∙ unfold c_str in refl))

    is_part_of : (r : Bytes) × (l.part ++ r ≡ c_str (answer l.count))
    is_part_of = elim (Bool-cases (final.responses_sent == s)) [
      | inl at ↦
          let none_left : l.part ≡ [] = no_part (ground arith) in
          (c_str (answer l.count), rw none_left refl)
      | inr off ↦ (
        l.rest,
        l.is_part
            ∙ (text final.responses_sent (ground arith) ∙ ap (λ n. c_str (answer n)) at_count),
      )
    ]

    rest : IsBefore answer s (run_replies answer all calls c).0 (run_replies answer all calls c).2
    rest =
        subst (λ (t : Bytes × List Write × ClientState). IsBefore answer s t.0 t.2) (sym kept)
          (record {
            count = l.count;
            part = l.part;
            rest = is_part_of.0;
            sent_at = at_count;
            stays = omega (arith, stays, l.sent_at);
            written =
                l.written
                ∙ ap (λ t. t ++ l.part)
                    (answers-without s answer 0 l.count (omega (arith, stays, l.sent_at)));
            is_part = is_part_of.1;
            none_of_s = λ e. no_part (at_count ∙ e);
          })
