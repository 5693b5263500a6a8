-- ===== src/Service/Pending.antt =====
-- threadpool.c, worker_main: what is known of a request that a worker has in hand.
use comp_p.Common.{
  ℕ, ◌<◌, ◌≤◌, ◌≡◌, ◌≢◌, inl, inr, refl, sym, ap, subst, Bool, true, ltb, ==_iff, List, [], ◌∷◌,
  ◌++◌, none, Bytes, Bool-cases, arith,
}
use comp_p.ServerCommon.{Request}
use comp_p.Threadpool.Requests.{tally}
use comp_p.Service.{Service, Job, replying}
use comp_p.Service.Ledger.{Finished, Ledger}
use comp_p.Service.Conserve.{requests_of, held, tally-held, Conserved}
use comp_p.Service.Unique.{has_number, IsNumbered}
use comp_p.Service.Order.{response_to}

no_response :
    (pid seq : ℕ) (fin : List Finished)
    → tally (has_number pid seq) (requests_of fin) ≡ 0
    → response_to pid seq fin ≡ none
unfolding response_to requests_of tally
no_response pid seq [] h = refl
no_response pid seq (f ∷ fs) h = elim (Bool-cases (has_number pid seq f.request)) [
  | inl picked ↦ absurd (omega (arith, rw picked at h))
  | inr passed ↦ rw passed (no_response pid seq fs (rw passed at h))
]

has_number_self : (r : Request) → has_number r.client r.request_seq_num r ≡ true
has_number_self r =
    rw ((==_iff r.client r.client).1 refl, (==_iff r.request_seq_num r.request_seq_num).1 refl) refl

-- What is known of a request that a worker has in hand: it has had no response yet, and its number
-- is one that the client has given out.
pub record IsPending (l : Ledger) (s : Service) (r : Request) : Type 0 where
  pub no_reply : response_to r.client r.request_seq_num l.finished ≡ none
  pub given : r.request_seq_num < (s.clients r.client).requests_received

pub job-IsPending :
    (l : Ledger) (s : Service) (r : Request) (response : Bytes) (left right : List Job)
    → s.jobs ≡ left ++ replying r response ∷ right
    → ((picks : Request → Bool) → Conserved picks l s)
    → IsNumbered l s.clients r.client
    → IsPending l s r
unfolding tally
job-IsPending l s r response left right e conserved n = record {
  no_reply =
      no_response r.client r.request_seq_num l.finished
        (omega (arith, n.once r.request_seq_num, conserved picks, in_hand));
  given = elim (Bool-cases (ltb r.request_seq_num (s.clients r.client).requests_received)) [
    | inl below ↦ ground (arith, below)
    | inr above ↦
        absurd (
          omega
            (arith, n.below r.request_seq_num (ground (arith, above)), conserved picks, in_hand))
  ];
}
  where
    picks : Request → Bool
    picks = has_number r.client r.request_seq_num

    one : tally picks (r ∷ []) ≡ 1
    one = rw (has_number_self r) refl

    in_hand : 1 ≤ tally picks (held s.jobs)
    in_hand = omega (
      arith,
      ap (λ js. tally picks (held js)) e,
      tally-held picks left right (replying r response),
      one,
    )

pub other_client :
    (pid n : ℕ) (f : Finished) (fin : List Finished)
    → pid ≢ f.request.client
    → response_to pid n (f ∷ fin) ≡ response_to pid n fin
unfolding response_to
other_client pid n f fin other = ground arith

pub unanswered :
    (pid n : ℕ) (r : Request) (fin : List Finished)
    → response_to r.client r.request_seq_num fin ≡ none
    → response_to pid n (record { request = r; response = none } ∷ fin) ≡ response_to pid n fin
unfolding response_to
unanswered pid n r fin new = elim (Bool-cases (has_number pid n r)) [
  | inl own ↦
      let (owner, number) = is_own own in
      rw own (
        sym (
          subst (λ j. response_to j n fin ≡ none) owner
            (subst (λ j. response_to r.client j fin ≡ none) number new)))
  | inr other ↦ rw other refl
]
  where
    is_own : has_number pid n r ≡ true → (r.client ≡ pid) × (r.request_seq_num ≡ n)
    is_own own = ground arith
