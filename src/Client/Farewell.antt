-- ===== src/Client/Farewell.antt =====
-- client_main.c, main: a whole session, from its first line to its end.
use comp_p.Common.{◌≡◌, ◌⊎◌, Bool, true, false, List, [], ◌∷◌, ◌++◌, Bytes}
use comp_p.Client.{Session, Turn, new_session}
use comp_p.Client.Run.{Ran, disconnect_msg}
use comp_p.Client.Dialogue.{IsGoodbye, IsTurn}
use comp_p.Client.Conversation.{IsCut}

-- Each turn in the session that the one before it leaves, and none after one that ends the loop.
pub IsDialogue : Session → List Turn → Type 0
IsDialogue s [] = Unit
IsDialogue s (t ∷ ts) = IsTurn s t × (t.goes_on ≡ false → ts ≡ []) × IsDialogue t.session ts

-- The lines of these turns, one after the other.
unfoldable pub sent_by : List Turn → Bytes
sent_by [] = []
sent_by (t ∷ ts) = t.sent ++ sent_by ts

-- The last turn ends the loop with a Disconnect, or because the server rejects the login.
abbrev pub Farewell : List Turn → Type 0
Farewell [] = ⊥
Farewell (t ∷ []) = IsGoodbye t
Farewell (t ∷ u ∷ ts) = Farewell (u ∷ ts)

-- Nothing, or a line that write has not sent whole.
abbrev pub IsRest : Bytes → Type 0
IsRest cut = (cut ≡ []) ⊎ ((logged_in : Bool) × IsCut logged_in cut)

-- What the loop leaves on the FIFO and in the session.
record IsLoop (s : Session) (ran : Ran) : Type 0 where
  dialogue : IsDialogue s ran.turns
  cut : Bytes
  wire : ran.wire ≡ sent_by ran.turns ++ cut
  rest : IsRest cut
  farewell :
      ran.session.sent_disconnect ≡ true
      → (s.sent_disconnect ≡ true) ⊎ (Farewell ran.turns × (cut ≡ []))
  parted : Farewell ran.turns → ran.session.sent_disconnect ≡ true

-- The bytes after the lines of the turns: the session has ended with a Disconnect or a rejected
-- login, and there are none; or it has not, and main has written its own Disconnect, as far as write
-- lets it.
pub data IsTail (turns : List Turn) (tail : Bytes) : Type 0 where
  said : Farewell turns → tail ≡ [] → IsTail turns tail
  says :
      (cut out missing : Bytes)
      → (Farewell turns → ⊥)
      → tail ≡ cut ++ out
      → IsRest cut
      → out ++ missing ≡ disconnect_msg
      → IsTail turns tail

-- The turns of a session and the bytes that it puts on the FIFO.
abbrev pub IsSaid : Ran → Type 0
IsSaid ran =
    IsDialogue new_session ran.turns
    × ((tail : Bytes) × (ran.wire ≡ sent_by ran.turns ++ tail) × IsTail ran.turns tail)
