-- ===== src/Threadpool/Rotation.antt =====
-- threadpool.c, the queues as a ring that is turned.
use mathlib.Core.List.{append-nil, append_assoc}
use comp_p.Common.{
  ℕ, ◌≡◌, ◌≢◌, refl, sym, ◌∙◌, List, [], ◌∷◌, ◌++◌, Option, none, some, All, All-drop, arith,
}
use comp_p.Threadpool.{ClientQueue, Threadpool}
use comp_p.Threadpool.Queues.{
  from, before, head_client, or_else, next_after, put_queue, cycle, ring, rotation,
}

-- No queue of the list belongs to the client.
abbrev pub Absent : ℕ → List ClientQueue → Type 0
Absent c qs = All (λ q. q.client ≢ c) qs

abbrev pub Distinct : List ClientQueue → Type 0
Distinct [] = Unit {0}
Distinct (q ∷ qs) = Absent q.client qs × Distinct qs

pub before-append-from : (c : ℕ) (qs : List ClientQueue) → before c qs ++ from c qs ≡ qs
unfolding before from
before-append-from c [] = refl
before-append-from c (q ∷ qs) = ground (arith, before-append-from c qs)

pub from_split :
    (c : ℕ) (xs ys : List ClientQueue) (q : ClientQueue)
    → Absent c xs
    → q.client ≡ c
    → (from c (xs ++ q ∷ ys) ≡ q ∷ ys) × (before c (xs ++ q ∷ ys) ≡ xs)
unfolding from before
from_split c [] ys q a e = ground arith
from_split c (x ∷ xs) ys q a e = ground (arith, from_split c xs ys q a.1 e)

pub put_split :
    (r q : ClientQueue) (xs ys : List ClientQueue)
    → Absent q.client xs
    → r.client ≡ q.client
    → put_queue r (xs ++ q ∷ ys) ≡ xs ++ r ∷ ys
unfolding put_queue
put_split r q [] ys a e = ground arith
put_split r q (x ∷ xs) ys a e = ground (arith, put_split r q xs ys a.1 e)

-- The clients around a queue of a list of distinct clients.
pub Distinct-split :
    (xs ys : List ClientQueue) (q : ClientQueue)
    → Distinct (xs ++ q ∷ ys)
    → Absent q.client xs × Absent q.client ys
Distinct-split [] ys q d = (tt, d.0)
Distinct-split (x ∷ xs) ys q d = let (l, r) = Distinct-split xs ys q d.1 in ((middle xs d.0, l), r)
  where
    middle : (zs : List ClientQueue) → Absent x.client (zs ++ q ∷ ys) → x.client ≢ q.client
    middle [] a e = a.0 (sym e)
    middle (z ∷ zs) a e = middle zs a.1 e

Distinct-next :
    (xs ys : List ClientQueue) (q y r : ClientQueue)
    → Distinct (xs ++ q ∷ y ∷ ys)
    → r.client ≡ q.client
    → Absent y.client (xs ++ (r ∷ []))
Distinct-next [] ys q y r d e = ((λ k. d.0.0 (sym k ∙ e)), tt)
Distinct-next (x ∷ xs) ys q y r d e =
    ((λ k. (All-drop _ xs (q ∷ y ∷ ys) d.0).1.0 (sym k)), Distinct-next xs ys q y r d.1 e)

ring_head : (qs : List ClientQueue) → ring (head_client qs) qs ≡ qs
unfolding ring head_client cycle
ring_head [] = refl
ring_head (q ∷ qs) = let (f, b) = from_split q.client [] qs q tt refl in rw (f, b, append-nil)

ring_at :
    (xs ys : List ClientQueue) (y : ClientQueue)
    → Absent y.client xs
    → ring (some y.client) (xs ++ y ∷ ys) ≡ (y ∷ ys) ++ xs
unfolding ring cycle
ring_at xs ys y a = let (f, b) = from_split y.client xs ys y a refl in rw (f, b)

or_else-same : (o : Option ℕ) → or_else o o ≡ o
or_else-same none = refl
or_else-same (some c) = refl

-- After queue q of the list has been served, the ring starts behind it and ends with it.
pub rotation_next :
    (p : Threadpool) (xs ys : List ClientQueue) (q r : ClientQueue)
    → Distinct (xs ++ q ∷ ys)
    → r.client ≡ q.client
    → p.clients ≡ xs ++ r ∷ ys
    → p.next_client ≡ next_after q.client (xs ++ q ∷ ys) p.clients
    → rotation p ≡ ys ++ (xs ++ (r ∷ []))
unfolding rotation next_after
rotation_next p xs [] q r d e c n =
    let (f, b) = from_split q.client xs [] q (Distinct-split xs [] q d).0 refl in
    rw (n, f, c)
      (unfold head_client in
        rw (or_else-same (head_client (xs ++ (r ∷ [])))) (ring_head (xs ++ (r ∷ []))))
rotation_next p xs (y ∷ ys) q r d e c n =
    let (f, b) = from_split q.client xs (y ∷ ys) q (Distinct-split xs (y ∷ ys) q d).0 refl in
    rw (n, f, c, ← append_assoc xs (r ∷ []) (y ∷ ys))
      (unfold head_client in ring_at (xs ++ (r ∷ [])) ys y (Distinct-next xs ys q y r d e))
