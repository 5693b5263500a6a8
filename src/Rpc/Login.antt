-- ===== src/Rpc/Login.antt =====
-- rpc.c, the Login command, from the line to the session.
use comp_p.Common.{
  ◌≡◌, refl, ap, ◌∙◌, true, [], ◌∷◌, ◌++◌, some, Bytes, codes, str_eq, All, take, take-all, arith,
}
use comp_p.CString.{c_str, strncpy, is_delim, is_alnum, is_digit}
use comp_p.CString.Number.{ℤ}
use comp_p.CString.Decimal.{show_ℤ}
use comp_p.Auth.{auth_valid_username, auth_lookup, all_alnum}
use comp_p.Handles.{max_username_len}
use comp_p.Rpc.{Environment, World, answered, with_client}
use comp_p.Rpc.Text.{newline, response_i32}
use comp_p.Rpc.Tokens.{IsInner, IsWord, line_of, tokenize-line_of}
use comp_p.Rpc.Request.{is_positive, log_in, login_reply, login, command, rpc_handle_request}

alnum-IsInner : (s : Bytes) → all_alnum s ≡ true → All IsInner s
unfolding all_alnum is_alnum is_digit is_delim
alnum-IsInner [] h = tt
alnum-IsInner (c ∷ s) h = ground (arith, alnum-IsInner s)

valid-IsWord : (name : Bytes) → auth_valid_username (some name) ≡ true → IsWord name
unfolding auth_valid_username
valid-IsWord [] h = absurd (cc)
valid-IsWord (c ∷ s) h = alnum-IsInner (c ∷ s) (ground arith)

c_str-alnum : (s : Bytes) → all_alnum s ≡ true → c_str s ≡ s
unfolding c_str all_alnum is_alnum is_digit
c_str-alnum [] h = refl
c_str-alnum (c ∷ s) h = ground (arith, c_str-alnum s)

-- The buffer of client_state_t has room for every valid name.
username-whole :
    (name : Bytes) → auth_valid_username (some name) ≡ true → strncpy max_username_len name ≡ name
unfolding strncpy auth_valid_username
username-whole name h =
    ap (take max_username_len) (c_str-alnum name (ground arith))
    ∙ take-all max_username_len name (ground arith)

-- The line of a Login with a valid name reaches login_reply.
login_line :
    (env : Environment) (w : World) (name : Bytes)
    → env.line_ok ≡ true
    → auth_valid_username (some name) ≡ true
    → rpc_handle_request env w (line_of (codes "Login") (name ∷ []))
      ≡ login_reply env.time w name (auth_lookup w.auth (some name))
unfolding rpc_handle_request command login
login_line env w name copied good =
    rw
      (
        copied,
        tokenize-line_of (codes "Login") (name ∷ []) (omega arith)
            (login_word, (valid-IsWord name good, tt)),
        rpc_handle_request,
      )
      (rw (login_name, good) refl)
  where
    login_word : IsWord (codes "Login")
    login_word = unfold is_delim in ground arith

    login_name : str_eq (codes "Login") (codes "Login") ≡ true
    login_name = unfold str_eq in refl

-- A client that sends "Login NAME" on a line, with a valid name to which the database gives a
-- positive balance, gets the balance as its response and is logged in under exactly that name, if
-- there is memory for the copy of the line.
pub login_lem :
    (env : Environment) (w : World) (name : Bytes) (balance : ℤ)
    → env.line_ok ≡ true
    → auth_valid_username (some name) ≡ true
    → auth_lookup w.auth (some name) ≡ some balance
    → is_positive balance ≡ true
    → rpc_handle_request env w (line_of (codes "Login") (name ∷ []))
      ≡ answered
          (show_ℤ balance ++ (newline ∷ []))
          (with_client (record w.client { username = name; balance = balance; logged_in = true }) w)
unfolding login_reply log_in response_i32
login_lem env w name balance copied good found positive =
    login_line env w name copied good ∙ rw (found, positive, username-whole name good) refl
