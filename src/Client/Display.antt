-- ===== src/Client/Display.antt =====
-- display_rpc_response: the line that the user sees for a response.
use comp_p.Common.{◌-◌, not, [], ◌∷◌, ◌++◌, Option, none, some, if◌then◌else◌, Bytes, codes, str_eq}
use comp_p.CString.{strncpy, strtok, is_blank, is_space}
use comp_p.Auth.{is_empty}
use comp_p.Client.{max_response_len}
use comp_p.Client.Text.{strip_newline, trim_whitespace, take_start}

-- What puts writes.
abbrev pub puts : Bytes → Bytes
puts s = s ++ (10 ∷ [])

unfoldable pub show_movie : Option (Bytes × Bytes) → Bytes
show_movie none = puts (codes "Success")
show_movie (some (t2, save)) =
    if str_eq t2 (codes "0") then puts (codes "Success") else puts (codes "Movie write failed")

-- The response after its first token "0".
unfoldable pub show_success : Option (Bytes × Bytes) → Bytes
show_success none = puts (codes "Success")
show_success (some (t1, save)) =
    if str_eq t1 (codes "-1")
    then puts (codes "Data write failed")
    else if str_eq t1 (codes "0")
    then show_movie (strtok is_blank save)
    else puts (codes "Success " ++ t1)

-- strtok_r has put a NUL after the first token of `copy` when it is shown.
unfoldable pub show_first : Bytes → Option (Bytes × Bytes) → Bytes
show_first copy none = puts copy
show_first copy (some (token, save)) =
    if not (str_eq token (codes "0"))
    then puts (take_start is_space copy ++ token)
    else show_success (strtok is_blank save)

unfoldable pub display_rpc_response : Bytes → Bytes
display_rpc_response response =
    let copy = strip_newline (strncpy (max_response_len - 1) response) in
    let token = trim_whitespace copy in
    if is_empty token
    then puts response
    else if str_eq token (codes "-1")
    then puts (codes "RPC Failed")
    else if str_eq token (codes "-2")
    then puts (codes "Value error")
    else if str_eq token (codes "-3")
    then puts (codes "Internal error")
    else show_first copy (strtok is_blank token)
