-- ===== src/Threadpool/Response/Writes.antt =====
-- threadpool.c, write_all and the text that it is given.
use mathlib.Core.List.{append_assoc}
use comp_p.Common.{
  zero, suc, ◌≡◌, refl, ap, ◌∙◌, true, false, List, [], ◌∷◌, ◌++◌, Bytes, take, drop,
  take-append-drop,
}
use comp_p.Threadpool.Response.{Write, interrupted, failed, wrote, write_all}

-- What write_all writes is a front part of the text, and the whole text if it reports success.
pub write_all-parts :
    (calls : List Write) (text : Bytes)
    → (rest : Bytes) × ((write_all calls text).0 ++ rest ≡ text)
      × ((write_all calls text).1 ≡ true → rest ≡ [])
unfolding write_all
write_all-parts calls [] = ([], refl, λ h. refl)
write_all-parts [] (b ∷ bs) = (b ∷ bs, refl, λ h. absurd (cc))
write_all-parts (interrupted ∷ calls) (b ∷ bs) = write_all-parts calls (b ∷ bs)
write_all-parts (failed ∷ calls) (b ∷ bs) = (b ∷ bs, refl, λ h. absurd (cc))
write_all-parts (wrote zero ∷ calls) (b ∷ bs) = (b ∷ bs, refl, λ h. absurd (cc))
write_all-parts (wrote (suc n) ∷ calls) (b ∷ bs) =
    let (rest, e, h) = write_all-parts calls (drop n bs) in
    (
      rest,
      ap (◌∷◌ b) (
          append_assoc (take n bs) (write_all calls (drop n bs)).0 rest
          ∙ (ap (λ t. take n bs ++ t) e ∙ take-append-drop n bs)),
      h,
    )

-- No call of write fails: each one is interrupted or writes a byte at least.
abbrev pub NeverFails : List Write → Type 0
NeverFails [] = Unit {0}
NeverFails (interrupted ∷ calls) = NeverFails calls
NeverFails (failed ∷ calls) = ⊥
NeverFails (wrote zero ∷ calls) = ⊥
NeverFails (wrote (suc n) ∷ calls) = NeverFails calls

-- Then write_all fails only where it has used up the calls.
pub write_all-NeverFails :
    (calls : List Write) (text : Bytes)
    → NeverFails calls
    → NeverFails (write_all calls text).2
      × ((write_all calls text).1 ≡ false → (write_all calls text).2 ≡ [])
unfolding write_all
write_all-NeverFails calls [] h = (h, λ e. cc e)
write_all-NeverFails [] (b ∷ bs) h = (tt, λ e. refl)
write_all-NeverFails (interrupted ∷ calls) (b ∷ bs) h = write_all-NeverFails calls (b ∷ bs) h
write_all-NeverFails (failed ∷ calls) (b ∷ bs) h = elim h [ ]
write_all-NeverFails (wrote zero ∷ calls) (b ∷ bs) h = elim h [ ]
write_all-NeverFails (wrote (suc n) ∷ calls) (b ∷ bs) h = write_all-NeverFails calls (drop n bs) h
