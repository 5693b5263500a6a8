-- ===== src/Threadpool/Fair.antt =====
-- threadpool.c, dequeue_fair_request beside a ring of queues.
use mathlib.Core.List.{append-nil, append_assoc}
use comp_p.Common.{
  ℕ, ◌≡◌, ◌≢◌, refl, sym, ap, ◌∙◌, subst, true, false, ◌||◌, List, [], ◌∷◌, ◌++◌, Option, none,
  some, ◌==◌, if◌then◌else◌, ◌+◌, ◌%◌, ◌-◌, ◌^◌, Option-cases, Bool-cases, ◌⊎◌, inl, inr, All,
  arith,
}
use comp_p.ServerCommon.{Request}
use comp_p.Threadpool.{ClientQueue, Threadpool}
use comp_p.Threadpool.Queues.{
  next_after, put_queue, pop_request, visit, rotation, is_nil, take_request, dequeue_fair_request,
  from, before, ring, cycle, or_else, head_client,
}
use comp_p.Threadpool.Rotation.{
  Distinct, before-append-from, put_split, rotation_next, Distinct-split,
}
use comp_p.Threadpool.Valid.{
  IsPool, IsIdle, total, total-rotation, total-IsIdle, IsIdle-total, rotation-IsQueue,
}

-- The head of a queue, for an active queue that is not empty. The count wraps at 64 bits.
unfoldable pub oldest : ClientQueue → Option (Request × ClientQueue)
oldest q =
    if q.active
    then elim q.requests [
      | [] ↦ none
      | r ∷ rest ↦
          some (
            r,
            record q { requests = rest; queued_count = (q.queued_count + (2 ^ 64 - 1)) % 2 ^ 64 },
          )
    ]
    else none

pub oldest_lem : (q : ClientQueue) → oldest q ≡ pop_request q
unfolding oldest pop_request
oldest_lem q = ground arith

-- The specification: a ring of queues. The first queue that has a request gives up its oldest one
-- and goes to the end of the ring, behind those that were passed over.
unfoldable pub serve : List ClientQueue → List ClientQueue → Option (Request × List ClientQueue)
serve passed [] = none
serve passed (q ∷ qs) = elim (oldest q) [
  | some (r, q') ↦ some (r, qs ++ (passed ++ (q' ∷ [])))
  | none ↦ serve (passed ++ (q ∷ [])) qs
]

-- What a visit finds: the first queue that is not idle.
pub record Visited (qs : List ClientQueue) (r : Request) (q' : ClientQueue) : Type 0 where
  pub pre : List ClientQueue
  pub post : List ClientQueue
  pub queue : ClientQueue
  pub split : qs ≡ pre ++ queue ∷ post
  pub idle : All IsIdle pre
  pub popped : pop_request queue ≡ some (r, q')

pub visit-Visited :
    (qs : List ClientQueue) (r : Request) (q' : ClientQueue)
    → visit qs ≡ some (r, q')
    → Visited qs r q'
unfolding visit
visit-Visited [] r q' e = absurd (cc)
visit-Visited (q ∷ qs) r q' e = elim (Option-cases (pop_request q)) [
  | inr (found, hit) ↦ record {
    pre = [];
    post = qs;
    queue = q;
    split = refl;
    idle = tt;
    popped = hit ∙ rw (hit, visit) at e;
  }
  | inl miss ↦
      let v = visit-Visited qs r q' (rw (miss, visit) at e) in
      record {
        pre = q ∷ v.pre;
        post = v.post;
        queue = v.queue;
        split = ap (◌∷◌ q) v.split;
        idle = (miss, v.idle);
        popped = v.popped;
      }
]

visit-none : (qs : List ClientQueue) → visit qs ≡ none → All IsIdle qs
unfolding visit
visit-none [] e = tt
visit-none (q ∷ qs) e = ground (arith, visit-none qs)

serve-idle : (passed qs : List ClientQueue) → All IsIdle qs → serve passed qs ≡ none
unfolding serve
serve-idle passed [] h = refl
serve-idle passed (q ∷ qs) h =
    rw (oldest_lem q, h.0, serve) (serve-idle (passed ++ (q ∷ [])) qs h.1)

serve-split :
    (passed pre post : List ClientQueue) (q q' : ClientQueue) (r : Request)
    → All IsIdle pre
    → pop_request q ≡ some (r, q')
    → serve passed (pre ++ q ∷ post) ≡ some (r, post ++ ((passed ++ pre) ++ (q' ∷ [])))
unfolding serve
serve-split passed [] post q q' r i e = rw (oldest_lem q, e, append-nil, serve)
serve-split passed (x ∷ pre) post q q' r i e =
    rw (oldest_lem x, i.0, serve)
      (serve-split (passed ++ (x ∷ [])) pre post q q' r i.1 e
        ∙ ap (λ zs. some (r, post ++ (zs ++ (q' ∷ [])))) (append_assoc passed (x ∷ []) pre))

-- A queue of the turned list, found in the list itself.
turn :
    (f b pre post : List ClientQueue) (q : ClientQueue)
    → f ++ b ≡ pre ++ q ∷ post
    → (xs : List ClientQueue) × (ys : List ClientQueue) × (b ++ f ≡ xs ++ q ∷ ys)
      × ((zs : List ClientQueue) → ys ++ (xs ++ zs) ≡ post ++ (pre ++ zs))
turn [] b pre post q e = (pre, post, append-nil b ∙ e, λ zs. refl)
turn (x ∷ f) b [] post q e =
    let head : x ≡ q = cc in
    let rest : f ++ b ≡ post = cc in
    (b, f, rw head, λ zs. sym (append_assoc f b zs) ∙ ap (λ t. t ++ zs) rest)
turn (x ∷ f) b (y ∷ pre) post q e =
    let head : x ≡ y = cc in
    let rest : f ++ b ≡ pre ++ q ∷ post = cc in
    let shifted : f ++ (b ++ (x ∷ [])) ≡ pre ++ q ∷ (post ++ (x ∷ [])) =
      sym (append_assoc f b (x ∷ []))
      ∙ (ap (λ t. t ++ (x ∷ [])) rest ∙ append_assoc pre (q ∷ post) (x ∷ [])) in
    let (xs, ys, e', k) = turn f (b ++ (x ∷ [])) pre (post ++ (x ∷ [])) q shifted in
    (
      xs,
      ys,
      sym (append_assoc b (x ∷ []) f) ∙ e',
      λ zs. k zs ∙ (append_assoc post (x ∷ []) (pre ++ zs) ∙ rw head),
    )

pub pop-client :
    (q q' : ClientQueue) (r : Request) → pop_request q ≡ some (r, q') → q'.client ≡ q.client
unfolding pop_request
pop-client q q' r e = ground arith

-- The turned list, as two parts of the list itself.
rotation-parts :
    (p : Threadpool)
    → (f : List ClientQueue) × (b : List ClientQueue) × (rotation p ≡ f ++ b)
      × ((p.clients ≡ b ++ f) ⊎ (rotation p ≡ []))
unfolding rotation
rotation-parts p = go (or_else p.next_client (head_client p.clients))
  where
    go :
        (o : Option ℕ)
        → (f : List ClientQueue) × (b : List ClientQueue) × (ring o p.clients ≡ f ++ b)
          × ((p.clients ≡ b ++ f) ⊎ (ring o p.clients ≡ []))
    go none = unfold ring in ([], [], refl, inr refl)
    go (some c) =
        unfold ring cycle in
        (from c p.clients, before c p.clients, refl, inl (sym (before-append-from c p.clients)))

-- The queue that a visit finds, in the list of the pool.
pub record Located (p : Threadpool) (pre post : List ClientQueue) (q : ClientQueue) : Type 0 where
  pub left : List ClientQueue
  pub right : List ClientQueue
  pub place : p.clients ≡ left ++ q ∷ right
  pub turned : (zs : List ClientQueue) → right ++ (left ++ zs) ≡ post ++ (pre ++ zs)

pub Visited-Located :
    (p : Threadpool) (r : Request) (q' : ClientQueue) (v : Visited (rotation p) r q')
    → Located p v.pre v.post v.queue
Visited-Located p r q' v =
    let (f, b, e, o) = rotation-parts p in
    elim o [
      | inr empty ↦ absurd (nonempty v.pre (sym empty ∙ v.split))
      | inl whole ↦
          let (xs, ys, at, k) = turn f b v.pre v.post v.queue (sym e ∙ v.split) in
          record { left = xs; right = ys; place = whole ∙ at; turned = k }
    ]
  where
    nonempty : (pre : List ClientQueue) → [] ≡ pre ++ v.queue ∷ v.post → ⊥
    nonempty [] h = cc
    nonempty (x ∷ pre) h = cc

take_request-rotation :
    (p : Threadpool) (r : Request) (q' : ClientQueue) (v : Visited (rotation p) r q')
    → Distinct p.clients
    → rotation (take_request p (r, q')) ≡ v.post ++ (v.pre ++ (q' ∷ []))
unfolding take_request
take_request-rotation p r q' v d =
    let l = Visited-Located p r q' v in
    let d' : Distinct (l.left ++ v.queue ∷ l.right) = subst Distinct l.place d in
    let same = pop-client v.queue q' r v.popped in
    let written : put_queue q' p.clients ≡ l.left ++ q' ∷ l.right =
      ap (put_queue q') l.place
      ∙ put_split q' v.queue l.left l.right (Distinct-split l.left l.right v.queue d').0 same in
    let next =
      ap (λ qs. next_after q'.client qs (put_queue q' p.clients)) l.place
      ∙ ap (λ c. next_after c (l.left ++ v.queue ∷ l.right) (put_queue q' p.clients)) same in
    rotation_next (take_request p (r, q')) l.left l.right v.queue q' d' same written next
    ∙ l.turned (q' ∷ [])

-- What dequeue_fair_request does, seen on the ring.
abbrev pub ring_view : Option Request × Threadpool → Option (Request × List ClientQueue)
ring_view (none, p) = none
ring_view (some r, p) = some (r, rotation p)

no_work : (p : Threadpool) → IsPool p → p.pending_requests ≡ 0 → serve [] (rotation p) ≡ none
no_work p v h =
    serve-idle [] (rotation p)
      (total-IsIdle (rotation p) (omega (arith, total-rotation p, v.pending)))

nil_total : (qs : List ClientQueue) → is_nil qs ≡ true → total qs ≡ 0
unfolding is_nil total
nil_total [] h = refl
nil_total (q ∷ qs) h = cc

-- On a valid pool a dequeue is a turn of the ring: it takes the oldest request of the first active
-- queue that has one, in the order from next_client on, and that queue becomes the last of the ring.
-- It returns none exactly if no active queue of the ring has a request.
pub dequeue_fair_request-serve :
    (p : Threadpool) → IsPool p → ring_view (dequeue_fair_request p) ≡ serve [] (rotation p)
unfolding dequeue_fair_request
dequeue_fair_request-serve p v = elim (Bool-cases (p.pending_requests == 0 || is_nil p.clients)) [
  | inl idle ↦ rw (idle, dequeue_fair_request) (sym (no_work p v (pending_zero idle)))
  | inr busy ↦ elim (Option-cases (visit (rotation p))) [
    | inl miss ↦
        rw (busy, miss, dequeue_fair_request)
          (sym (serve-idle [] (rotation p) (visit-none (rotation p) miss)))
    | inr ((r, q'), hit) ↦
        let w = visit-Visited (rotation p) r q' hit in
        rw (busy, hit, dequeue_fair_request)
          (ap (λ l. some (r, l)) (take_request-rotation p r q' w v.distinct)
            ∙ sym
                (ap (serve []) w.split ∙ serve-split [] w.pre w.post w.queue q' r w.idle w.popped))
  ]
]
  where
    pending_zero : (p.pending_requests == 0 || is_nil p.clients) ≡ true → p.pending_requests ≡ 0
    pending_zero h = ground (arith, nil_total p.clients, v.pending)

-- As long as requests wait, a dequeue returns one: a worker that has been woken finds its request.
pub dequeue_finds :
    (p : Threadpool)
    → IsPool p
    → p.pending_requests ≢ 0
    → (r : Request) × ((dequeue_fair_request p).0 ≡ some r)
unfolding dequeue_fair_request
dequeue_finds p v h = elim (Option-cases (visit (rotation p))) [
  | inl miss ↦ absurd (
      omega (
        arith,
        IsIdle-total (rotation p) (rotation-IsQueue p v.queues) (visit-none (rotation p) miss),
        total-rotation p,
        v.pending,
      ))
  | inr ((r, q'), hit) ↦ (r, rw (busy, hit, dequeue_fair_request))
]
  where
    busy : (p.pending_requests == 0 || is_nil p.clients) ≡ false
    busy = ground (arith, nil_total p.clients, v.pending)
