-- ===== src/Handles/Records.antt =====
-- The record lists of the store under their ids: what a lookup finds and what a write changes.
use comp_p.Common.{
  ℕ, ◌<◌, ◌≤◌, ◌≡◌, refl, true, false, List, [], ◌∷◌, Option, none, some, ◌==◌, if◌then◌else◌,
  Bytes, Option-cases, some_pair, inl, inr, arith,
}
use comp_p.Handles.{CanvasRecord, SpriteRecord, PlacementRecord, HandleStore, null}
use comp_p.Handles.Users.{has_connected_user}
use comp_p.Handles.Store.{
  open_canvas, get_canvas_in, put_canvas, get_sprite_in, get_placement_in, handles_get_sprite,
  handles_get_placement,
}

-- A canvas whose object is destroyed exactly if it is marked as deleted, and then serves nobody.
pub record IsCanvas (c : CanvasRecord) : Type 0 where
  pub freed : c.deleted ≡ (c.canvas == null)
  pub unused : c.deleted ≡ true → has_connected_user c.users ≡ false

-- Ids are positive and fall along each list, from below `n`.
abbrev pub Canvases : ℕ → List CanvasRecord → Type 0
Canvases n [] = Unit {0}
Canvases n (c ∷ cs) = IsCanvas c × (0 < c.id) × (c.id < n) × Canvases c.id cs

abbrev pub Sprites : ℕ → List SpriteRecord → Type 0
Sprites n [] = Unit {0}
Sprites n (c ∷ cs) = (c.deleted ≡ (c.sprite == null)) × (0 < c.id) × (c.id < n) × Sprites c.id cs

abbrev pub Placements : ℕ → List PlacementRecord → Type 0
Placements n [] = Unit {0}
Placements n (c ∷ cs) =
    (c.deleted ≡ (c.placement == null)) × (0 < c.id) × (c.id < n) × Placements c.id cs

-- The record with an id.
unfoldable pub canvas_at : ℕ → List CanvasRecord → Option CanvasRecord
canvas_at id [] = none
canvas_at id (c ∷ cs) = if c.id == id then some c else canvas_at id cs

canvas_at_above :
    (id n : ℕ) (cs : List CanvasRecord) → Canvases n cs → n ≤ id → canvas_at id cs ≡ none
unfolding canvas_at
canvas_at_above id n [] v h = refl
canvas_at_above id n (c ∷ cs) v h = ground (arith, canvas_at_above id c.id cs v.3)

pub open_canvas-id :
    (id : ℕ) (name : Bytes) (c c' : CanvasRecord)
    → open_canvas id name c ≡ some c'
    → (c.id ≡ id) × (c'.id ≡ id)
unfolding open_canvas
open_canvas-id id name c c' e = ground arith

pub canvas_at-id :
    (id : ℕ) (cs : List CanvasRecord) (c : CanvasRecord) → canvas_at id cs ≡ some c → c.id ≡ id
unfolding canvas_at
canvas_at-id id [] c e = cc
canvas_at-id id (d ∷ cs) c e = ground (arith, canvas_at-id id cs c)

-- What handles_get_canvas returns is the record with the id, opened by the user and put back.
pub record Opened (id : ℕ) (name : Bytes) (cs : List CanvasRecord) (c' : CanvasRecord)
    (cs' : List CanvasRecord) : Type 0 where
  pub old : CanvasRecord
  pub found : canvas_at id cs ≡ some old
  pub opened : open_canvas id name old ≡ some c'
  pub written : cs' ≡ put_canvas c' cs

pub get_canvas_in-Opened :
    (id n : ℕ) (name : Bytes) (cs : List CanvasRecord) (c' : CanvasRecord) (cs' : List CanvasRecord)
    → Canvases n cs
    → get_canvas_in id name cs ≡ some (c', cs')
    → Opened id name cs c' cs'
unfolding get_canvas_in canvas_at put_canvas
get_canvas_in-Opened id n name [] c' cs' v e = absurd (cc)
get_canvas_in-Opened id n name (c ∷ cs) c' cs' v e = elim (Option-cases (open_canvas id name c)) [
  | inr (d, o) ↦
      let (same, rest) = some_pair (rw (o, get_canvas_in) at e) in
      record {
        old = c;
        found = ground (arith, open_canvas-id id name c d o);
        opened = rw (← same) o;
        written = ground (arith, open_canvas-id id name c d o);
      }
  | inl o ↦ elim (Option-cases (get_canvas_in id name cs)) [
    | inl miss ↦ absurd (cc (rw (o, miss, get_canvas_in) at e))
    | inr ((d, ds), hit) ↦
        let (same, rest) = some_pair (rw (o, hit, get_canvas_in) at e) in
        let r = get_canvas_in-Opened id c.id name cs d ds v.3 hit in
        let ids = open_canvas-id id name r.old d r.opened in
        let above = canvas_at_above id c.id cs v.3 in
        record {
          old = r.old;
          found = ground (arith, r.found, above);
          opened = rw (← same) r.opened;
          written = ground (arith, r.found, r.written, above, ids);
        }
  ]
]

pub sprite-below :
    (n id : ℕ) (name : Bytes) (cs : List SpriteRecord) (c : SpriteRecord)
    → Sprites n cs
    → get_sprite_in id name cs ≡ some c
    → c.id < n
unfolding get_sprite_in
sprite-below n id name [] c v e = absurd (cc)
sprite-below n id name (d ∷ cs) c v e = ground (arith, sprite-below d.id id name cs c v.3)

pub placement-below :
    (n id : ℕ) (name : Bytes) (cs : List PlacementRecord) (c : PlacementRecord)
    → Placements n cs
    → get_placement_in id name cs ≡ some c
    → c.id < n
unfolding get_placement_in
placement-below n id name [] c v e = absurd (cc)
placement-below n id name (d ∷ cs) c v e = ground (arith, placement-below d.id id name cs c v.3)

pub get_sprite-in :
    (s : HandleStore) (id : ℕ) (name : Bytes) (r : SpriteRecord)
    → handles_get_sprite s id name ≡ some r
    → get_sprite_in id name s.sprites ≡ some r
unfolding handles_get_sprite
get_sprite-in s id name r h = ground arith

pub get_placement-in :
    (s : HandleStore) (id : ℕ) (name : Bytes) (r : PlacementRecord)
    → handles_get_placement s id name ≡ some r
    → get_placement_in id name s.placements ≡ some r
unfolding handles_get_placement
get_placement-in s id name r h = ground arith
