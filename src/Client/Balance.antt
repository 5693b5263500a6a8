-- ===== src/Client/Balance.antt =====
-- client_main.c, parse_integer_reply and the response to a Login.
use mathlib.Core.List.{append-nil}
use comp_p.Common.{◌-◌, ◌≡◌, refl, sym, [], some, arith}
use comp_p.CString.{strncpy}
use comp_p.CString.Number.{ℤ, starts_with_digit}
use comp_p.CString.Decimal.{show_ℤ, IsLong, strtoll-show_ℤ}
use comp_p.CString.Digits.{length-show_ℤ}
use comp_p.Auth.{is_empty}
use comp_p.Rpc.Text.{response_i32}
use comp_p.Client.{max_response_len}
use comp_p.Client.Text.{drop_start, strip_newline, parse_integer_reply}
use comp_p.Client.Copies.{copy_lem, show_ℤ-IsText}

copy-response_i32 :
    (z : ℤ) → IsLong z → strip_newline (strncpy (max_response_len - 1) (response_i32 z)) ≡ show_ℤ z
unfolding response_i32
copy-response_i32 z h = copy_lem (show_ℤ z) (show_ℤ-IsText z) (omega (arith, length-show_ℤ z h))

-- For any value that a long holds, parse_integer_reply reads the response that response_i32 makes
-- of it back as that value.
pub parse_integer_reply-response_i32 :
    (z : ℤ) → IsLong z → parse_integer_reply (response_i32 z) ≡ some z
unfolding parse_integer_reply
parse_integer_reply-response_i32 z h =
    rw (copy-response_i32 z h, sym (append-nil (show_ℤ z)))
      (rw (strtoll-show_ℤ z [] h (unfold starts_with_digit in refl))
        (unfold is_empty drop_start in refl))
