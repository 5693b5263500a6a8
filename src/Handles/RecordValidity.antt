-- ===== src/Handles/RecordValidity.antt =====
-- The effect of each operation of the store on its record lists, and on the invariant.
use comp_p.Common.{ℕ, ◌<◌, ◌≤◌, ◌≡◌, Bool, List, [], ◌∷◌, some, ◌==◌, Bytes, arith}
use comp_p.Handles.{CanvasRecord, SpriteRecord, PlacementRecord, HandleStore, null}
use comp_p.Handles.Users.{update_shared_user, has_connected_user, arrive}
use comp_p.Handles.UserLaws.{leave-connected, arrive-connected, release-connected}
use comp_p.Handles.Records.{IsCanvas, Canvases, Sprites, Placements, canvas_at}
use comp_p.Handles.Store.{
  open_canvas, put_canvas, put_sprite, put_placement, leave_canvas, disconnect_canvas,
}
use comp_p.Handles.Barrier.{canvas_record_barrier, canvas_record_share}
use comp_p.Handles.Run.{share_change, barrier_change}

pub record IsValid (s : HandleStore) : Type 0 where
  pub positive : 0 < s.next_id
  pub canvases : Canvases s.next_id s.canvases
  pub sprites : Sprites s.next_id s.sprites
  pub placements : Placements s.next_id s.placements

pub Canvases-mono : {m n : ℕ} (cs : List CanvasRecord) → m ≤ n → Canvases m cs → Canvases n cs
Canvases-mono [] h v = tt
Canvases-mono (c ∷ cs) h v = (v.0, v.1, omega arith, v.3)

pub Sprites-mono : {m n : ℕ} (cs : List SpriteRecord) → m ≤ n → Sprites m cs → Sprites n cs
Sprites-mono [] h v = tt
Sprites-mono (c ∷ cs) h v = (v.0, v.1, omega arith, v.3)

pub Placements-mono :
    {m n : ℕ} (cs : List PlacementRecord) → m ≤ n → Placements m cs → Placements n cs
Placements-mono [] h v = tt
Placements-mono (c ∷ cs) h v = (v.0, v.1, omega arith, v.3)

pub put-Canvases :
    (n : ℕ) (r : CanvasRecord) (cs : List CanvasRecord)
    → IsCanvas r
    → Canvases n cs
    → Canvases n (put_canvas r cs)
unfolding put_canvas
put-Canvases n r [] i v = tt
put-Canvases n r (c ∷ cs) i v = ground (arith, put-Canvases c.id r cs i v.3)

pub put-Sprites :
    (n : ℕ) (r : SpriteRecord) (cs : List SpriteRecord)
    → r.deleted ≡ (r.sprite == null)
    → Sprites n cs
    → Sprites n (put_sprite r cs)
unfolding put_sprite
put-Sprites n r [] i v = tt
put-Sprites n r (c ∷ cs) i v = ground (arith, put-Sprites c.id r cs i v.3)

pub put-Placements :
    (n : ℕ) (r : PlacementRecord) (cs : List PlacementRecord)
    → r.deleted ≡ (r.placement == null)
    → Placements n cs
    → Placements n (put_placement r cs)
unfolding put_placement
put-Placements n r [] i v = tt
put-Placements n r (c ∷ cs) i v = ground (arith, put-Placements c.id r cs i v.3)

pub canvas_at-IsCanvas :
    (id n : ℕ) (cs : List CanvasRecord) (c : CanvasRecord)
    → Canvases n cs
    → canvas_at id cs ≡ some c
    → IsCanvas c
unfolding canvas_at
canvas_at-IsCanvas id n [] c v e = absurd (cc)
canvas_at-IsCanvas id n (d ∷ cs) c v e = ground (arith, canvas_at-IsCanvas id d.id cs c v.3)

pub open_canvas-IsCanvas :
    (id : ℕ) (name : Bytes) (c c' : CanvasRecord)
    → IsCanvas c
    → open_canvas id name c ≡ some c'
    → IsCanvas c'
unfolding open_canvas
open_canvas-IsCanvas id name c c' i e = ground arith

pub leave_canvas-IsCanvas :
    (name : Bytes) (c : CanvasRecord) → IsCanvas c → IsCanvas (leave_canvas name c).0
unfolding leave_canvas
leave_canvas-IsCanvas name c i = ground (arith, leave-connected name c.users)

pub disconnect_canvas-IsCanvas :
    (name : Bytes) (c : CanvasRecord) → IsCanvas c → IsCanvas (disconnect_canvas name c).0
unfolding disconnect_canvas
disconnect_canvas-IsCanvas name c i = ground (arith, leave-connected name c.users)

pub id-disconnect_canvas :
    (name : Bytes) (c : CanvasRecord) → (disconnect_canvas name c).0.id ≡ c.id
unfolding disconnect_canvas
id-disconnect_canvas name c = ground arith

pub share_change-IsCanvas :
    (ok : Bool) (name : Bytes) (c : CanvasRecord) → IsCanvas c → IsCanvas (share_change ok name c).0
unfolding canvas_record_share has_connected_user
share_change-IsCanvas ok name c i = ground arith

pub barrier_change-IsCanvas :
    (name : Bytes) (c : CanvasRecord) → IsCanvas c → IsCanvas (barrier_change name c).0
unfolding canvas_record_barrier
barrier_change-IsCanvas name c i = ground (
  arith,
  arrive-connected name c.users,
  release-connected (update_shared_user name arrive c.users),
)

pub with_canvases :
    (s : HandleStore) (cs : List CanvasRecord)
    → IsValid s
    → Canvases s.next_id cs
    → IsValid (record s { canvases = cs })
with_canvases s cs v d = record {
  positive = v.positive;
  canvases = d;
  sprites = v.sprites;
  placements = v.placements;
}
