-- ===== src/Client/Conversation.antt =====
-- client_main.c, main: the lines that leave on the FIFO in the course of a session.
use comp_p.Common.{
  zero, suc, ◌≡◌, ◌⊎◌, inl, inr, refl, ap, sym, ◌∙◌, Bool, true, false, List, [], ◌∷◌, ◌++◌, Option,
  none, some, Bytes, take, drop, take-append-drop, arith,
}
use mathlib.Core.List.{append_assoc}
use comp_p.CString.Calls.{Write, interrupted, failed, wrote}
use comp_p.Client.{Session, Turn, max_response_len}
use comp_p.Client.Io.{write_all, read_response_line, response_of}
use comp_p.Client.Whole.{IsWhole}
use comp_p.Client.Loop.{
  Verdict, ignore, refuse, send, judge, act, handle_line, exchange, take_login, enter,
}
use comp_p.Client.Run.{Pipes, Round, advance, line_round}
use comp_p.Client.Dialogue.{IsRequest, IsTurn, handle_line-IsTurn, IsRequest-judge}

-- What leaves and what does not make up the text, and nothing is missing on success.
pub write_all-parts :
    (calls : List Write) (text : Bytes)
    → (missing : Bytes) × ((write_all calls text).0 ++ missing ≡ text)
      × ((write_all calls text).1 ≡ true → (write_all calls text).0 ≡ text)
unfolding write_all
write_all-parts calls [] = ([], refl, λ h. refl)
write_all-parts [] (b ∷ bs) = (b ∷ bs, refl, λ h. cc h)
write_all-parts (interrupted ∷ calls) (b ∷ bs) = write_all-parts calls (b ∷ bs)
write_all-parts (failed ∷ calls) (b ∷ bs) = (b ∷ bs, refl, λ h. cc h)
write_all-parts (wrote zero ∷ calls) (b ∷ bs) = (b ∷ bs, refl, λ h. cc h)
write_all-parts (wrote (suc n) ∷ calls) (b ∷ bs) =
    let (missing, parts, all_out) = write_all-parts calls (drop n bs) in
    let cut = take-append-drop n bs in
    (
      missing,
      ap (◌∷◌ b) (
          append_assoc (take n bs) (write_all calls (drop n bs)).0 missing
          ∙ (ap (λ t. take n bs ++ t) parts ∙ cut)),
      λ h. ap (◌∷◌ b) (ap (λ t. take n bs ++ t) (all_out h) ∙ cut),
    )

-- The start of a line that the client may send, where write has failed.
pub record IsCut (logged_in : Bool) (cut : Bytes) : Type 0 where
  pub text : Bytes
  pub missing : Bytes
  pub parts : cut ++ missing ≡ text
  pub request : IsRequest logged_in text

-- A round: what its turn does, and the bytes that leave in it.
pub record IsRound (s : Session) (r : Round) : Type 0 where
  pub turn : IsTurn s r.turn
  pub wire :
      (r.wire ≡ r.turn.sent)
      ⊎ ((r.turn.sent ≡ [])
          × (r.turn.goes_on ≡ false)
          × (r.turn.session ≡ s)
          × IsCut s.logged_in r.wire)

-- What a round puts on the FIFO, beside its turn.
abbrev pub IsWire : Session → Bytes → Turn → Type 0
IsWire s wire t =
    (wire ≡ t.sent)
    ⊎ ((t.sent ≡ []) × (t.goes_on ≡ false) × (t.session ≡ s) × IsCut s.logged_in wire)

exchange-sent :
    (response : Option Bytes) (text command : Bytes) (s : Session)
    → (exchange true response text command s).sent ≡ text
unfolding exchange take_login enter
exchange-sent none text command s = ground arith
exchange-sent (some reply) text command s = ground arith

module _ (text : Bytes) (p : Pipes) (s : Session) (w : IsWhole text) where
  sent-IsWire :
      (response : Option Bytes) (command out : Bytes) (ok : Bool)
      → judge text s ≡ send command
      → (missing : Bytes) × (out ++ missing ≡ text) × (ok ≡ true → out ≡ text)
      → IsWire s out (exchange ok response text command s)
  unfolding exchange
  sent-IsWire response command out true e (missing, parts, all_out) =
      inl (all_out refl ∙ sym (exchange-sent response text command s))
  sent-IsWire response command out false e (missing, parts, all_out) = inr (
    refl,
    refl,
    refl,
    record {
      text = text;
      missing = missing;
      parts = parts;
      request = IsRequest-judge text command s w e;
    },
  )

  pub line_round-IsRound : IsRound s (line_round text p s)
  unfolding line_round handle_line
  line_round-IsRound = record {
    turn = handle_line-IsTurn ok response text s w;
    wire = judged (judge text s) refl;
  }
    where
      ok : Bool
      ok = (write_all p.writes text).1

      response : Option Bytes
      response = response_of (read_response_line max_response_len p.reads)

      judged :
          (v : Verdict)
          → judge text s ≡ v
          → IsWire s (advance v text p).0 (act v ok response text s)
      judged ignore e = unfold advance act in inl refl
      judged refuse e = unfold advance act in inl refl
      judged (send command) e =
          unfold advance act in sent-IsWire response command _ ok e (write_all-parts p.writes text)
