-- ===== src/Threadpool/Response/Complete.antt =====
-- threadpool.c, which responses have left after a sequence of replies.
use mathlib.Core.List.{append-nil}
use comp_p.Common.{
  ℕ, ap, ◌∙◌, ◌++◌, ◌+◌, ◌<◌, ◌≤◌, ◌≡◌, refl, Bool, true, false, List, [], ◌∷◌, ltb, Bool-cases,
  ◌⊎◌, inl, inr, All, Bytes, arith,
}
use comp_p.ServerCommon.{ClientState, max_pending_responses, u64_mod}
use comp_p.Threadpool.Response.{
  Write, slot_of, is_stopped, flush, is_closed, is_out_of_window, store_response,
  send_ordered_response,
}
use comp_p.Threadpool.Response.Flush.{flush-stops}
use comp_p.Threadpool.Response.Window.{answers}
use comp_p.Threadpool.Response.Writes.{NeverFails}
use comp_p.Threadpool.Response.Order.{
  IsBuffer, run_replies, reply_to, send-Log, store-IsBuffer, fresh-IsBuffer, replies-closed,
  replies-Log, closed-disconnected, disconnected-closed,
}
use comp_p.Threadpool.Response.Willing.{replies-NeverFails}
use comp_p.Threadpool.Response.Come.{
  HasCome, stopped_next, flush-HasCome, flush-fd, store-HasCome, stored-HasCome, dropped-HasCome,
}

abbrev pub Has : ℕ → List ℕ → Type 0
Has n [] = ⊥
Has n (x ∷ xs) = (n ≡ x) ⊎ Has n xs

-- Each reply of the list comes when all requests that are 1024 or more behind it have their reply;
-- those in `done` have theirs already.
abbrev pub IsPaced : List ℕ → List ℕ → Type 0
IsPaced done [] = Unit {0}
IsPaced done (seq ∷ seqs) =
    ((n : ℕ) × ((j : ℕ) → j < n → Has j done) × (seq < n + max_pending_responses))
    × IsPaced (seq ∷ done) seqs

pub record Progress (answer : ℕ → Bytes) (bound : ℕ) (done : List ℕ) (c : ClientState)
    : Type 0 where
  pub buffer : IsBuffer answer bound c
  pub stopped : is_stopped c ≡ true
  pub come : (j : ℕ) → Has j done → HasCome j c
  pub opened : is_closed c ≡ false

-- All of the first n have come, so they have left.
come_sent :
    (answer : ℕ → Bytes) (bound n : ℕ) (done : List ℕ) (c : ClientState)
    → Progress answer bound done c
    → ((j : ℕ) → j < n → Has j done)
    → n ≤ c.responses_sent
come_sent answer bound n done c p all = elim (Bool-cases (ltb c.responses_sent n)) [
  | inr reached ↦ ground arith
  | inl less ↦
      absurd
        (stopped_next c p.stopped (p.come c.responses_sent (all c.responses_sent (ground arith))))
]

not_down : (h : Bool) {A : Type 0} → A ⊎ (h ≡ true) → h ≡ false → A
not_down h (inl a) e = a
not_down h (inr b) e = absurd (cc)

still_open :
    (c c' : ClientState)
    → is_closed c ≡ false
    → c'.fifo_s2c_fd ≡ c.fifo_s2c_fd
    → c'.disconnected ≡ false
    → is_closed c' ≡ false
unfolding is_closed
still_open c c' h fd up = rw (fd, is_closed) (ground arith)

flushed-Progress :
    (answer : ℕ → Bytes) (bound s : ℕ) (done : List ℕ) (calls : List Write) (c : ClientState)
    → bound + max_pending_responses < u64_mod
    → s < bound
    → is_out_of_window c s ≡ false
    → Progress answer bound done c
    → let c' = (flush max_pending_responses calls (store_response s (answer s) c)).2 in
      c'.disconnected ≡ false → IsBuffer answer bound c' → Progress answer bound (s ∷ done) c'
unfolding store_response
flushed-Progress answer bound s done calls c room small fits p up w =
    let top = c.responses_sent + max_pending_responses in
    let stored = store_response s (answer s) c in
    let c' = (flush max_pending_responses calls stored).2 in
    let full = store-IsBuffer answer bound s c room small fits p.buffer in
    let keep = λ (j : ℕ) (h : HasCome j stored).
      not_down c'.disconnected
        (flush-HasCome answer bound top j max_pending_responses calls stored room full h) up in
    record {
      buffer = w;
      stopped =
          not_down c'.disconnected
            (flush-stops answer bound top max_pending_responses calls stored room (omega arith)
              full)
            up;
      come = λ j h. elim h [
        | inl e ↦ rw e (keep s (stored-HasCome s (answer s) c))
        | inr old ↦ keep j (store-HasCome j s (answer s) c fits (p.come j old))
      ];
      opened = still_open c c' p.opened (flush-fd max_pending_responses calls stored) up;
    }

send-Progress :
    (answer : ℕ → Bytes) (bound s n : ℕ) (done : List ℕ) (calls : List Write) (c : ClientState)
    → bound + max_pending_responses < u64_mod
    → s < bound
    → ((j : ℕ) → j < n → Has j done)
    → s < n + max_pending_responses
    → Progress answer bound done c
    → let c' = (send_ordered_response calls (reply_to c s) (answer s) c).2 in
      c'.disconnected ≡ false → Progress answer bound (s ∷ done) c'
unfolding send_ordered_response
send-Progress answer bound s n done calls c room small all near p =
    elim (Bool-cases (is_out_of_window c s)) [
      | inl out ↦
          let enough = come_sent answer bound n done c p all in
          rw (p.opened, out, send_ordered_response)
            (λ up. record {
              buffer = p.buffer;
              stopped = p.stopped;
              opened = p.opened;
              come = λ j h. elim h [
                | inl e ↦ rw e (dropped-HasCome answer bound s c room p.buffer (omega arith) out)
                | inr old ↦ p.come j old
              ];
            })
      | inr fits ↦
          let (l, w) = send-Log answer bound calls (reply_to c s) c room small p.buffer in
          let w' = rw (p.opened, fits, send_ordered_response) at w in
          rw (p.opened, fits, send_ordered_response)
            (λ up. flushed-Progress answer bound s done calls c room small fits p up w')
    ]

replies-Progress :
    (answer : ℕ → Bytes) (bound : ℕ) (done seqs : List ℕ) (calls : List Write) (c : ClientState)
    → bound + max_pending_responses < u64_mod
    → All (λ seq. seq < bound) seqs
    → IsPaced done seqs
    → Progress answer bound done c
    → let c' = (run_replies answer seqs calls c).2 in
      (c'.disconnected ≡ true)
      ⊎ ((now : List ℕ) × ((j : ℕ) → Has j seqs ⊎ Has j done → Has j now)
          × Progress answer bound now c')
unfolding run_replies
replies-Progress answer bound done [] calls c room small paced p =
    inr (done, (λ j h. elim h [ inl none_left ↦ absurd none_left | inr old ↦ old ]), p)
replies-Progress answer bound done (s ∷ seqs) calls c room small paced p =
    let sent = send_ordered_response calls (reply_to c s) (answer s) c in
    elim (Bool-cases sent.2.disconnected) [
      | inl down ↦
          rw (replies-closed answer seqs sent.1 sent.2 (disconnected-closed sent.2 down)) (inl down)
      | inr up ↦
          let p' =
            send-Progress answer bound s paced.0.0 done calls c room small.0 paced.0.1 paced.0.2 p
              up in
          elim (replies-Progress answer bound (s ∷ done) seqs sent.1 sent.2 room small.1 paced.1
            p') [
              | inl down ↦ inl down
              | inr (now, more, q) ↦ inr (now, (λ j h. more j (shift j h)), q)
            ]
    ]
  where
    shift : (j : ℕ) → Has j (s ∷ seqs) ⊎ Has j done → Has j seqs ⊎ Has j (s ∷ done)
    shift j (inl (inl e)) = inr (inl e)
    shift j (inl (inr h)) = inl h
    shift j (inr h) = inr (inr h)

fresh-stopped :
    (c : ClientState) → ((k : ℕ) → (c.pending_responses k).ready ≡ false) → is_stopped c ≡ true
unfolding is_stopped
fresh-stopped c empty = rw (empty (slot_of c.responses_sent)) refl

-- A new and open client, with no response sent or waiting, whose requests 0 to n - 1 all have
-- their reply, in any order in which no reply runs 1024 or more ahead of a request without one.
-- If no call of write fails, though each may be interrupted or write as few bytes as it likes,
-- then the client reads all n responses, whole, in order and perhaps followed by later ones,
-- unless the calls of write that the run was given have been used up. The requests have numbers
-- below a bound that is more than 1024 short of 2^64.
pub replies_arrive :
    (answer : ℕ → Bytes) (bound n : ℕ) (seqs : List ℕ) (calls : List Write) (c : ClientState)
    → bound + max_pending_responses < u64_mod
    → All (λ seq. seq < bound) seqs
    → IsPaced [] seqs
    → ((j : ℕ) → j < n → Has j seqs)
    → c.responses_sent ≡ 0
    → ((k : ℕ) → (c.pending_responses k).ready ≡ false)
    → is_closed c ≡ false
    → NeverFails calls
    → let (out, left, c') = run_replies answer seqs calls c in
      (left ≡ []) ⊎ ((k : ℕ) × (n ≤ k) × (out ≡ answers answer 0 k))
replies_arrive answer bound n seqs calls c room small paced all start empty opened fine =
    elim (Bool-cases sent.2.disconnected) [
      | inl down ↦ inl (used down)
      | inr up ↦ elim (replies-Progress answer bound [] seqs calls c room small paced fresh) [
        | inl down ↦ inl (used down)
        | inr (now, more, q) ↦
            let l = replies-Log answer bound seqs calls c room small start empty in
            let enough = come_sent answer bound n now _ q (λ j less. more j (inl (all j less))) in
            inr (
              l.count,
              omega (arith, l.sent_at, enough),
              l.written
                  ∙ (ap (λ t. answers answer 0 l.count ++ t) (l.whole up)
                      ∙ append-nil (answers answer 0 l.count)),
            )
      ]
    ]
  where
    sent : Bytes × List Write × ClientState
    sent = run_replies answer seqs calls c

    used : sent.2.disconnected ≡ true → sent.1 ≡ []
    used down = elim (replies-NeverFails answer seqs calls c fine down) [
      | inl old ↦ absurd (cc (closed-disconnected c opened, old))
      | inr none_left ↦ none_left
    ]

    fresh : Progress answer bound [] c
    fresh = record {
      buffer = fresh-IsBuffer answer bound c start empty;
      stopped = fresh-stopped c empty;
      come = λ j h. absurd h;
      opened = opened;
    }
