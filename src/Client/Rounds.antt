-- ===== src/Client/Rounds.antt =====
-- client_main.c, main: the rounds of the loop as a relation, and how much of the input they take.
use comp_p.Common.{
  ℕ, zero, suc, ◌≤◌, ◌<◌, ◌≡◌, refl, sym, true, false, inl, inr, [], ◌∷◌, some, Bytes, length,
  Bool-cases, Option-cases, arith,
}
use comp_p.CString.Stream.{fgets, fgets-parts}
use comp_p.Client.{Session, new_session, max_input_len}
use comp_p.Client.Loop.{
  Verdict, ignore, refuse, send, judge, Input, empty, too_long, whole, input_line, skip_line,
}
use comp_p.Client.Run.{
  Pipes, Round, Ran, advance, line_round, input_round, client_round, before, only, client_loop,
  end_session, client_session,
}

-- How the loop runs from these pipes and this session.
pub data Runs : Pipes → Session → Ran → Type 0 where
  ended :
      {p : Pipes} {s : Session}
      → Runs p s (record { turns = []; wire = []; session = s; pipes = p })
  stops :
      {p : Pipes} {s : Session} {buffer rest : Bytes}
      → fgets max_input_len p.stdin ≡ some (buffer, rest)
      → (client_round buffer rest p s).turn.goes_on ≡ false
      → Runs p s (only (client_round buffer rest p s))
  goes :
      {p : Pipes} {s : Session} {buffer rest : Bytes} {ran : Ran}
      → fgets max_input_len p.stdin ≡ some (buffer, rest)
      → (client_round buffer rest p s).turn.goes_on ≡ true
      → Runs (client_round buffer rest p s).pipes (client_round buffer rest p s).turn.session ran
      → Runs p s (before (client_round buffer rest p s) ran)

length-skip_line : (s : Bytes) → length (skip_line s) ≤ length s
unfolding skip_line
length-skip_line [] = omega arith
length-skip_line (c ∷ s) = ground (arith, length-skip_line s)

advance-stdin : (v : Verdict) (line : Bytes) (p : Pipes) → (advance v line p).1.stdin ≡ p.stdin
unfolding advance
advance-stdin ignore line p = refl
advance-stdin refuse line p = refl
advance-stdin (send command) line p = refl

input_round-le :
    (i : Input) (p : Pipes) (s : Session) → length (input_round i p s).pipes.stdin ≤ length p.stdin
unfolding input_round line_round
input_round-le empty p s = omega arith
input_round-le too_long p s = length-skip_line p.stdin
input_round-le (whole line) p s = rw (advance-stdin (judge line s) line p) (omega arith)

client_round-le :
    (buffer rest : Bytes) (p : Pipes) (s : Session)
    → length (client_round buffer rest p s).pipes.stdin ≤ length rest
unfolding client_round
client_round-le buffer rest p s = input_round-le (input_line buffer) (record p { stdin = rest }) s

-- With fuel for more rounds than the input has bytes the loop ends.
pub client_loop-Runs :
    (f : ℕ) (p : Pipes) (s : Session)
    → length p.stdin < f
    → (ran : Ran) × (client_loop f p s ≡ some ran) × Runs p s ran
unfolding client_loop
client_loop-Runs zero p s h = elim h [ ]
client_loop-Runs (suc f) p s h = elim (Option-cases (fgets max_input_len p.stdin)) [
  | inl none_left ↦ (_, rw (none_left, client_loop) refl, ended)
  | inr ((buffer, rest), e) ↦
      let r : Round = client_round buffer rest p s in
      let shorter : length rest < length p.stdin = (fgets-parts 4094 p.stdin rest buffer e).1 in
      elim (Bool-cases r.turn.goes_on) [
        | inl on ↦
            let (ran, run, d) =
              client_loop-Runs f r.pipes r.turn.session
                (omega (arith, client_round-le buffer rest p s)) in
            (before r ran, rw (e, client_loop) (rw on (rw run refl)), goes e on d)
        | inr off ↦ (only r, rw (e, client_loop) (rw off refl), stops e off)
      ]
]

-- Whatever the input is and whatever the calls on the two FIFOs do, the client comes to its end:
-- no input is long enough to make the loop run forever.
pub client_session_total : (p : Pipes) → (ran : Ran) × (client_session p ≡ some ran)
unfolding client_session
client_session_total p =
    let (ran, e, d) = client_loop-Runs (suc (length p.stdin)) p new_session (omega arith) in
    (end_session ran, rw (e, client_session) refl)

some_eq : {a b : Ran} → some a ≡ some b → a ≡ b
some_eq e = cc e

-- A session is a run of the loop with its end.
pub client_session-Runs :
    (p : Pipes) (ran : Ran)
    → client_session p ≡ some ran
    → (looped : Ran) × Runs p new_session looped × (ran ≡ end_session looped)
unfolding client_session
client_session-Runs p ran h =
    let (looped, e, d) = client_loop-Runs (suc (length p.stdin)) p new_session (omega arith) in
    (looped, d, sym (some_eq (rw (e, client_session) at h)))
