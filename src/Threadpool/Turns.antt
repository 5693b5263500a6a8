-- ===== src/Threadpool/Turns.antt =====
-- threadpool.c, the queues that are served before that of a client.
use mathlib.Core.List.{append_assoc}
use comp_p.Common.{
  ℕ, zero, suc, ◌<◌, ◌≤◌, ◌≡◌, refl, sym, ap, ◌∙◌, subst, List, [], ◌∷◌, ◌++◌, Option, none, some,
  Option-cases, ◌⊎◌, inl, inr, length, arith,
}
use comp_p.ServerCommon.{Request}
use comp_p.Threadpool.{ClientQueue, Threadpool}
use comp_p.Threadpool.Queues.{pop_request, rotation, dequeue_fair_request}
use comp_p.Threadpool.Valid.{IsPool}
use comp_p.Threadpool.Fair.{oldest_lem, serve, ring_view, dequeue_fair_request-serve}
use comp_p.Threadpool.Preserve.{dequeue-IsPool}

-- What a turn of the ring means for queue c at a place of it, whose oldest request is r.
abbrev pub Turned :
    List ClientQueue → ClientQueue → Request → Option (Request × List ClientQueue) → Type 0
Turned pre c r none = ⊥
Turned pre c r (some (s, ring)) =
    (s ≡ r)
    ⊎ ((pre' : List ClientQueue) × (post' : List ClientQueue) × (ring ≡ pre' ++ c ∷ post')
        × (length pre' < length pre))

serve-Turned :
    (passed pre post : List ClientQueue) (c c' : ClientQueue) (r : Request)
    → pop_request c ≡ some (r, c')
    → Turned pre c r (serve passed (pre ++ c ∷ post))
unfolding serve
serve-Turned passed [] post c c' r e = rw (oldest_lem c, e, serve) (inl refl)
serve-Turned passed (q ∷ pre) post c c' r e = elim (Option-cases (pop_request q)) [
  | inr ((s, q'), hit) ↦
      rw (oldest_lem q, hit, serve)
        (inr (
          pre,
          post ++ (passed ++ (q' ∷ [])),
          append_assoc pre (c ∷ post) (passed ++ (q' ∷ [])),
          omega arith,
        ))
  | inl idle ↦
      rw (oldest_lem q, idle, serve)
        (weaken (serve (passed ++ (q ∷ [])) (pre ++ c ∷ post))
          (serve-Turned (passed ++ (q ∷ [])) pre post c c' r e))
]
  where
    weaken : (o : Option (Request × List ClientQueue)) → Turned pre c r o → Turned (q ∷ pre) c r o
    weaken none t = t
    weaken (some (s, ring)) (inl h) = inl h
    weaken (some (s, ring)) (inr (a, b, h, k)) = inr (a, b, h, omega arith)

-- The pool after n dequeues.
unfoldable pub dequeues : ℕ → Threadpool → Threadpool
dequeues zero p = p
dequeues (suc n) p = dequeues n (dequeue_fair_request p).1

-- One dequeue serves queue c or brings it nearer to its turn.
dequeue_turn :
    (p : Threadpool) (pre post : List ClientQueue) (c c' : ClientQueue) (r : Request)
    → IsPool p
    → rotation p ≡ pre ++ c ∷ post
    → pop_request c ≡ some (r, c')
    → ((dequeue_fair_request p).0 ≡ some r)
      ⊎ ((pre' : List ClientQueue) × (post' : List ClientQueue) × (rotation
              (dequeue_fair_request p).1
            ≡ pre' ++ c ∷ post')
          × (length pre' < length pre))
dequeue_turn p pre post c c' r v at e = read (dequeue_fair_request p) (
    subst (Turned pre c r) (sym (dequeue_fair_request-serve p v ∙ ap (serve []) at))
      (serve-Turned [] pre post c c' r e))
  where
    read :
        (d : Option Request × Threadpool)
        → Turned pre c r (ring_view d)
        → (d.0 ≡ some r)
          ⊎ ((pre' : List ClientQueue) × (post' : List ClientQueue) × (rotation d.1
                ≡ pre' ++ c ∷ post')
              × (length pre' < length pre))
    read (none, p') t = absurd t
    read (some s, p') (inl h) = inl (ap some h)
    read (some s, p') (inr h) = inr h

-- In a pool that satisfies the invariant, a client whose queue stands behind at most n queues of
-- the ring, and whose oldest request is r, has r served by one of the next n + 1 dequeues,
-- whatever the other clients have queued.
pub served_within :
    (n : ℕ) (p : Threadpool) (pre post : List ClientQueue) (c c' : ClientQueue) (r : Request)
    → length pre ≤ n
    → IsPool p
    → rotation p ≡ pre ++ c ∷ post
    → pop_request c ≡ some (r, c')
    → (k : ℕ) × (k ≤ n) × ((dequeue_fair_request (dequeues k p)).0 ≡ some r)
unfolding dequeues
served_within zero p pre post c c' r h v at e = elim (dequeue_turn p pre post c c' r v at e) [
  | inl now ↦ (0, omega arith, now)
  | inr (pre', post', at', less) ↦ absurd (omega arith)
]
served_within (suc m) p pre post c c' r h v at e = elim (dequeue_turn p pre post c c' r v at e) [
  | inl now ↦ (0, omega arith, now)
  | inr (pre', post', at', less) ↦
      let (k, small, found) =
        served_within m (dequeue_fair_request p).1 pre' post' c c' r (omega arith)
          (dequeue-IsPool p v) at' e in
      (suc k, omega arith, found)
]
