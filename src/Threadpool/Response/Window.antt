-- ===== src/Threadpool/Response/Window.antt =====
-- threadpool.c, the invariant of the window of pending responses.
use comp_p.Common.{
  ℕ, zero, suc, ◌+◌, ◌<◌, ◌≤◌, ◌≡◌, ◌≢◌, refl, sym, ap, ◌∙◌, subst, true, false, [], ◌++◌, Bytes,
  arith,
}
use comp_p.CString.{c_str}
use comp_p.ServerCommon.{
  ClientState, Response, empty_response, inc64, max_pending_responses, u64_mod,
}
use comp_p.Threadpool.Response.{put_slot, free_response, slot_of, next_response, is_stopped}

-- The responses of `n` requests from number `start` on, as the client reads them.
unfoldable pub answers : (ℕ → Bytes) → ℕ → ℕ → Bytes
answers answer start zero = []
answers answer start (suc n) = c_str (answer start) ++ answers answer (suc start) n

-- A response that waits in slot k.
pub record IsHeld (answer : ℕ → Bytes) (sent bound top k : ℕ) (r : Response) : Type 0 where
  pub unsent : sent ≤ r.seq_num
  pub below_top : r.seq_num < top
  pub below_bound : r.seq_num < bound
  pub at_slot : slot_of r.seq_num ≡ k
  pub text : r.response_str ≡ answer r.seq_num

-- Every response that waits has the text of its request, its own slot, and a number from
-- responses_sent on that is below `top` and below `bound`.
pub record IsWindow (answer : ℕ → Bytes) (bound top : ℕ) (c : ClientState) : Type 0 where
  pub sent_bound : c.responses_sent ≤ bound
  pub sent_top : c.responses_sent ≤ top
  pub held :
      (k : ℕ)
      → (c.pending_responses k).ready ≡ true
      → IsHeld answer c.responses_sent bound top k (c.pending_responses k)

-- What `out` is when the client's responses from `start` on have been written up to those of `c`:
-- whole responses in order, and after a failed write a front part of the next.
pub record Log (answer : ℕ → Bytes) (start : ℕ) (out : Bytes) (c : ClientState) : Type 0 where
  pub count : ℕ
  pub part : Bytes
  pub rest : Bytes
  pub sent_at : c.responses_sent ≡ start + count
  pub written : out ≡ answers answer start count ++ part
  pub is_part : part ++ rest ≡ c_str (answer c.responses_sent)
  pub whole : c.disconnected ≡ false → part ≡ []

pub Log-nil : (answer : ℕ → Bytes) (c : ClientState) → Log answer c.responses_sent [] c
unfolding answers
Log-nil answer c = record {
  count = 0;
  part = [];
  rest = c_str (answer c.responses_sent);
  sent_at = omega arith;
  written = refl;
  is_part = refl;
  whole = λ h. refl;
}

abbrev pub sent_one : ClientState → ClientState
sent_one c = record (free_response (slot_of c.responses_sent) c) {
  responses_sent = inc64 c.responses_sent;
}

abbrev pub failed_one : ClientState → ClientState
failed_one c = record (free_response (slot_of c.responses_sent) c) { disconnected = true }

free_slot :
    (k j : ℕ) (slots : ℕ → Response)
    → (put_slot k empty_response slots j).ready ≡ true
    → (j ≢ k) × (put_slot k empty_response slots j ≡ slots j)
unfolding put_slot
free_slot k j slots h = ground arith

IsHeld-later :
    (answer : ℕ → Bytes) (sent bound top k : ℕ) (r : Response)
    → k ≢ slot_of sent
    → IsHeld answer sent bound top k r
    → IsHeld answer (suc sent) bound top k r
IsHeld-later answer sent bound top k r ne h = record {
  unsent = omega (arith, ne, h.at_slot, h.unsent);
  below_top = h.below_top;
  below_bound = h.below_bound;
  at_slot = h.at_slot;
  text = h.text;
}

-- What the test of the loop says of the response that leaves next.
pub next_ready :
    (c : ClientState)
    → is_stopped c ≡ false
    → ((next_response c).ready ≡ true) × ((next_response c).seq_num ≡ c.responses_sent)
unfolding is_stopped
next_ready c go = ground arith

pub inc_sent :
    (answer : ℕ → Bytes) (bound top : ℕ) (c : ClientState)
    → bound + max_pending_responses < u64_mod
    → is_stopped c ≡ false
    → IsWindow answer bound top c
    → ((sent_one c).responses_sent ≡ suc c.responses_sent)
      × (c.responses_sent < top)
      × (c.responses_sent < bound)
inc_sent answer bound top c room go w =
    let (ready, seq) = next_ready c go in
    let h = w.held (slot_of c.responses_sent) ready in
    (
      omega (arith, h.below_bound, seq),
      omega (arith, h.below_top, seq),
      omega (arith, h.below_bound, seq),
    )

pub sent_one-IsWindow :
    (answer : ℕ → Bytes) (bound top : ℕ) (c : ClientState)
    → bound + max_pending_responses < u64_mod
    → is_stopped c ≡ false
    → IsWindow answer bound top c
    → IsWindow answer bound top (sent_one c)
unfolding free_response
sent_one-IsWindow answer bound top c room go w =
    let (inc, small_top, small_bound) = inc_sent answer bound top c room go w in
    record {
      sent_bound = omega arith;
      sent_top = omega arith;
      held = λ k h.
          let (ne, same) = free_slot (slot_of c.responses_sent) k c.pending_responses h in
          subst (λ n. IsHeld answer n bound top k ((sent_one c).pending_responses k)) (sym inc)
            (subst (IsHeld answer (suc c.responses_sent) bound top k) (sym same) (
              IsHeld-later answer c.responses_sent bound top k (c.pending_responses k) ne
                (w.held k (ap (λ r. r.ready) (sym same) ∙ h))));
    }

pub failed_one-IsWindow :
    (answer : ℕ → Bytes) (bound top : ℕ) (c : ClientState)
    → IsWindow answer bound top c
    → IsWindow answer bound top (failed_one c)
unfolding free_response
failed_one-IsWindow answer bound top c w = record {
  sent_bound = w.sent_bound;
  sent_top = w.sent_top;
  held = λ k h.
      let (ne, same) = free_slot (slot_of c.responses_sent) k c.pending_responses h in
      subst (IsHeld answer c.responses_sent bound top k) (sym same)
        (w.held k (ap (λ r. r.ready) (sym same) ∙ h));
}
