-- ===== src/Client/Dialogue.antt =====
-- client_main.c, main: which lines the client sends, and when.
use comp_p.Common.{
  ℕ, ◌+◌, ◌-◌, ◌≤◌, ◌≡◌, ◌≢◌, ◌⊎◌, inl, inr, refl, ap, sym, subst, ◌∙◌, Bool, true, false, not,
  ◌&&◌, [], ◌∷◌, ◌++◌, Option, none, some, if◌then◌else◌, Bytes, codes, str_eq, str_eq_iff, All,
  length, Bool-cases, Option-cases, arith,
}
use comp_p.CString.{c_str, strncpy}
use comp_p.Client.{Session, Turn, max_input_len, max_response_len}
use comp_p.Client.Whole.{IsWhole}
use comp_p.Client.Text.{
  strip_newline, non_empty, token_within, drop_start, first_token, parse_integer_reply,
  login_username,
}
use comp_p.Client.Display.{display_rpc_response}
use comp_p.Client.Loop.{
  act, has_prefix, Verdict, ignore, refuse, send, judge, quiet, handle_line, exchange, take_login,
  enter, max_username_len, name_or_empty,
}

-- A line that a client in that state may send: one command, whole, which fits in a buffer of
-- max_input_len bytes with its NUL, and before the login only Login or Disconnect.
pub record IsRequest (logged_in : Bool) (text : Bytes) : Type 0 where
  pub body : Bytes
  pub ends : text ≡ body ++ (10 ∷ [])
  pub no_nul : All (λ c. c ≢ 0) body
  pub no_newline : All (λ c. c ≢ 10) body
  pub fits : length text + 1 ≤ max_input_len
  pub command : Bytes
  pub starts : first_token text 64 ≡ some command
  pub allowed : logged_in ≡ false → (command ≡ codes "Login") ⊎ (command ≡ codes "Disconnect")

-- The turn ends the loop with a Disconnect, or because the server rejects the login.
abbrev pub IsGoodbye : Turn → Type 0
IsGoodbye t =
    (t.goes_on ≡ false)
    × ((first_token t.sent 64 ≡ some (codes "Disconnect"))
        ⊎ (has_prefix (codes "Reject") t.printed ≡ true))

-- What a turn of the loop does in a session.
pub record IsTurn (s : Session) (t : Turn) : Type 0 where
  pub request : (t.sent ≡ []) ⊎ IsRequest s.logged_in t.sent
  pub enters :
      t.session.logged_in ≡ true
      → (s.logged_in ≡ true) ⊎ (first_token t.sent 64 ≡ some (codes "Login"))
  pub last :
      first_token t.sent 64 ≡ some (codes "Disconnect")
      → (t.goes_on ≡ false) × (t.session.sent_disconnect ≡ true)
  pub ended : t.session.sent_disconnect ≡ true → (s.sent_disconnect ≡ true) ⊎ IsGoodbye t
  pub parts : IsGoodbye t → t.session.sent_disconnect ≡ true

judge-send :
    (text command : Bytes) (s : Session)
    → judge text s ≡ send command
    → (first_token text 64 ≡ some command)
      × (s.logged_in ≡ false → (command ≡ codes "Login") ⊎ (command ≡ codes "Disconnect"))
unfolding judge
judge-send text command s e = elim (Option-cases (first_token text 64)) [
  | inl missing ↦ absurd (no_send (rw (missing, judge) at e))
  | inr (first, found) ↦ elim (Bool-cases s.logged_in) [
    | inl on ↦
        let same : first ≡ command = sent_eq (rw (found, on, judge) at e) in
        (found ∙ ap some same, λ off. cc (on, off))
    | inr off ↦ guarded first found off (rw (found, off, judge) at e)
  ]
]
  where
    no_send : {c : Bytes} → ignore ≢ send c
    no_send e = cc e

    sent_eq : {a b : Bytes} → send a ≡ send b → a ≡ b
    sent_eq e = cc e

    guarded :
        (first : Bytes)
        → first_token text 64 ≡ some first
        → s.logged_in ≡ false
        → (if not (str_eq first (codes "Login")) && not (str_eq first (codes "Disconnect"))
            then refuse
            else send first)
          ≡ send command
        → (first_token text 64 ≡ some command)
          × (s.logged_in ≡ false → (command ≡ codes "Login") ⊎ (command ≡ codes "Disconnect"))
    guarded first found off e =
        ground (arith, str_eq_iff first (codes "Login"), str_eq_iff first (codes "Disconnect"))

first_token-nil : first_token [] 64 ≡ none
unfolding first_token non_empty token_within drop_start c_str
first_token-nil = refl

contradictory : true ≢ false
contradictory e = cc e

no_value : {c : Bytes} → none ≢ some c
no_value e = cc e

no_prefix : (c : ℕ) (cs : Bytes) → has_prefix (c ∷ cs) [] ≢ true
unfolding has_prefix
no_prefix c cs h = cc h

-- A turn that sends nothing is no goodbye if the loop goes on or nothing is printed.
still-IsGoodbye :
    {X : Type 0} (t : Turn) → t.sent ≡ [] → (t.goes_on ≡ true) ⊎ (t.printed ≡ []) → IsGoodbye t → X
still-IsGoodbye t e (inl on) (off, bye) = absurd (contradictory (sym on ∙ off))
still-IsGoodbye t e (inr quiet) (off, inl end) =
    absurd (no_value (sym first_token-nil ∙ (ap (λ x. first_token x 64) (sym e) ∙ end)))
still-IsGoodbye t e (inr quiet) (off, inr reject) =
    absurd (no_prefix b'R' (codes "eject") (ap (has_prefix (codes "Reject")) (sym quiet) ∙ reject))

-- A turn that sends nothing and leaves the session alone.
pub IsTurn-still :
    (s : Session) (t : Turn)
    → t.sent ≡ []
    → t.session ≡ s
    → (t.goes_on ≡ true) ⊎ (t.printed ≡ [])
    → IsTurn s t
IsTurn-still s t e same quiet = record {
  parts = λ h. still-IsGoodbye t e quiet h;
  request = inl e;
  enters = λ h. inl (ap (λ (x : Session). x.logged_in) (sym same) ∙ h);
  last = λ h. absurd (no_value (sym first_token-nil ∙ (ap (λ x. first_token x 64) (sym e) ∙ h)));
  ended = λ h. inl (ap (λ (x : Session). x.sent_disconnect) (sym same) ∙ h);
}

has_prefix-append : (ps s t : Bytes) → has_prefix ps s ≡ true → has_prefix ps (s ++ t) ≡ true
unfolding has_prefix
has_prefix-append [] s t h = refl
has_prefix-append (p ∷ ps) [] t h = cc h
has_prefix-append (p ∷ ps) (c ∷ s) t h = ground (arith, has_prefix-append ps s t)

module _ (text command : Bytes) (s : Session) (r : IsRequest s.logged_in text)
    (first : first_token text 64 ≡ some command) where
  IsTurn-sends :
      (t : Turn)
      → t.sent ≡ text
      → (t.session.logged_in ≡ true → (s.logged_in ≡ true) ⊎ (command ≡ codes "Login"))
      → (command ≡ codes "Disconnect" → (t.goes_on ≡ false) × (t.session.sent_disconnect ≡ true))
      → (t.session.sent_disconnect ≡ true → (s.sent_disconnect ≡ true) ⊎ IsGoodbye t)
      → (IsGoodbye t → t.session.sent_disconnect ≡ true)
      → IsTurn s t
  IsTurn-sends t e enters last ended parts = record {
    parts = parts;
    request = inr (subst (IsRequest s.logged_in) (sym e) r);
    enters = λ h. after (enters h);
    last = λ h. last (some_eq (sym first ∙ (ap (λ x. first_token x 64) (sym e) ∙ h)));
    ended = ended;
  }
    where
      some_eq : {a b : Bytes} → some a ≡ some b → a ≡ b
      some_eq e = cc e

      after :
          (s.logged_in ≡ true) ⊎ (command ≡ codes "Login")
          → (s.logged_in ≡ true) ⊎ (first_token t.sent 64 ≡ some (codes "Login"))
      after (inl on) = inl on
      after (inr login) = inr (ap (λ x. first_token x 64) e ∙ (first ∙ ap some login))

  not_disconnect :
      {X : Type 0} → str_eq command (codes "Disconnect") ≡ false → command ≡ codes "Disconnect" → X
  not_disconnect other e =
      absurd (contradictory (sym ((str_eq_iff command (codes "Disconnect")).1 e) ∙ other))
    where
      contradictory : true ≢ false
      contradictory e = cc e

  take_login-IsTurn :
      (name response : Bytes)
      → command ≡ codes "Login"
      → str_eq command (codes "Disconnect") ≡ false
      → IsTurn s (take_login text name response s)
  unfolding take_login enter
  take_login-IsTurn name response login other =
      elim (Bool-cases (has_prefix (codes "Reject") display)) [
        | inl reject ↦
            rw (reject, take_login)
              (IsTurn-sends _ refl (λ h. inl h) (not_disconnect other)
                (λ h. inr (refl, inr (has_prefix-append _ display (10 ∷ []) reject))) (λ h. refl))
        | inr fine ↦ elim (Option-cases (parse_integer_reply response)) [
          | inl text_only ↦
              rw (fine, text_only, take_login)
                (IsTurn-sends _ refl (λ h. inl h) (not_disconnect other) (λ h. inl h)
                  (λ h. absurd (contradictory h.0)))
          | inr (balance, number) ↦
              rw (fine, number, take_login)
                (IsTurn-sends _ refl (λ h. inr login) (not_disconnect other) (λ h. inl h)
                  (λ h. absurd (contradictory h.0)))
        ]
      ]
    where
      display : Bytes
      display = strip_newline (strncpy (max_response_len - 1) response)

  exchange-IsTurn :
      (ok : Bool) (response : Option Bytes) → IsTurn s (exchange ok response text command s)
  unfolding exchange
  exchange-IsTurn false response = IsTurn-still s _ refl refl (inr refl)
  exchange-IsTurn true response = elim (Bool-cases (str_eq command (codes "Disconnect"))) [
    | inl end ↦
        rw (end, exchange)
          (IsTurn-sends _ refl (λ h. inl h) (λ e. (refl, refl))
            (λ h.
              inr (refl, inl (first ∙ ap some ((str_eq_iff command (codes "Disconnect")).0 end))))
            (λ h. refl))
    | inr other ↦ rw (other, exchange) (answer response other)
  ]
    where
      unanswered :
          {X : Type 0}
          → str_eq command (codes "Disconnect") ≡ false
          → (first_token text 64 ≡ some (codes "Disconnect"))
            ⊎ (has_prefix (codes "Reject") [] ≡ true)
          → X
      unanswered other (inl end) = not_disconnect other (cc (first, end))
      unanswered other (inr reject) = absurd (no_prefix b'R' (codes "eject") reject)

      answer :
          (response : Option Bytes)
          → str_eq command (codes "Disconnect") ≡ false
          → IsTurn s (elim response [
            | none ↦ quiet text false s
            | some reply ↦
                if str_eq command (codes "Login")
                then take_login text
                    (name_or_empty (login_username text (max_username_len + 1)))
                    reply
                    s
                else record {
                  printed = display_rpc_response reply;
                  sent = text;
                  goes_on = true;
                  session = s;
                }
          ])
      answer none other =
          IsTurn-sends _ refl (λ h. inl h) (not_disconnect other) (λ h. inl h)
            (λ h. unanswered other h.1)
      answer (some reply) other = elim (Bool-cases (str_eq command (codes "Login"))) [
        | inl login ↦
            rw login
              (take_login-IsTurn _ reply ((str_eq_iff command (codes "Login")).0 login) other)
        | inr rpc ↦ rw rpc (
            IsTurn-sends _ refl (λ h. inl h) (not_disconnect other) (λ h. inl h)
              (λ h. absurd (contradictory h.0)))
      ]

pub IsRequest-judge :
    (text command : Bytes) (s : Session)
    → IsWhole text
    → judge text s ≡ send command
    → IsRequest s.logged_in text
IsRequest-judge text command s w e = record {
  body = w.body;
  ends = w.ends;
  no_nul = w.no_nul;
  no_newline = w.no_newline;
  fits = w.fits;
  command = command;
  starts = (judge-send text command s e).0;
  allowed = (judge-send text command s e).1;
}

-- A whole line, judged and sent.
pub handle_line-IsTurn :
    (ok : Bool) (response : Option Bytes) (text : Bytes) (s : Session)
    → IsWhole text
    → IsTurn s (handle_line ok response text s)
unfolding handle_line
handle_line-IsTurn ok response text s w = judged (judge text s) refl
  where
    judged : (v : Verdict) → judge text s ≡ v → IsTurn s (act v ok response text s)
    judged ignore e = IsTurn-still s _ refl refl (inl refl)
    judged refuse e = IsTurn-still s _ refl refl (inl refl)
    judged (send command) e =
        exchange-IsTurn text command s (IsRequest-judge text command s w e)
          (judge-send text command s e).0 ok response
