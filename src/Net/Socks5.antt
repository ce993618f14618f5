-- ===== src/Net/Socks5.antt =====
-- The SOCKSv5 client of net/socks5.hpp and net/socks5.cpp. Buffers are the bytes that they hold.
-- The signedness of `char` is a parameter, since the parser adds a `char` to a `size_t`.
pub mod Wire
pub mod Machine
pub mod Delivery
pub mod Reply
use libight.Prelude.{
  ℕ, ◌+◌, ◌-◌, ◌%◌, ◌^◌, Bool, true, false, not, ◌&&◌, List, [], ◌∷◌, ◌++◌, ◌==◌, ltb, leb,
  if◌then◌else◌, length, drop,
}
use libight.Prelude.Bytes.{Bytes}
use libight.Prelude.Int.{ℤ, pos, negsuc}
use libight.Common.Error.{Error, ErrorOr, ok, err}
use libight.Net.Buffer.Contents.{readn_contents, uint16}
use libight.Net.Errors.{
  bad_socks_version_error, no_available_socks_authentication_error, socks_address_too_long_error,
  socks_invalid_port_error, socks_error, bad_socks_reserved_field_error,
  bad_socks_atype_value_error,
}

-- `size_t`
abbrev pub size_mod : ℕ
size_mod = 2 ^ 64

abbrev pub format_auth_request : Bytes
format_auth_request = 5 ∷ 1 ∷ 0 ∷ []

-- On the bytes that `readn(2)` returned; the rest of the buffer stays.
auth_response : Bytes × Bytes → ErrorOr Bool × Bytes
auth_response ([], rest) = (ok false, rest)
auth_response (version ∷ [], rest) = (ok false, rest)
auth_response (version ∷ preferred_auth ∷ _, rest) =
    if not (version == 5)
    then (err bad_socks_version_error, rest)
    else if not (preferred_auth == 0)
    then (err no_available_socks_authentication_error, rest)
    else (ok true, rest)

unfoldable pub parse_auth_response : Bytes → ErrorOr Bool × Bytes
unfolding auth_response
parse_auth_response buffer = auth_response (readn_contents buffer 2)

port_bytes : ℤ → ErrorOr Bytes
port_bytes (negsuc n) = err socks_invalid_port_error
port_bytes (pos n) = if ltb 65535 n then err socks_invalid_port_error else ok (uint16 n)

add_port : Bytes → ErrorOr Bytes → ErrorOr Bytes
add_port out (ok port) = ok (out ++ port)
add_port out (err e) = err e

-- The request for settings "net/address" and "net/port".
unfoldable pub format_connect_request : Bytes → ℤ → ErrorOr Bytes
unfolding port_bytes add_port
format_connect_request address portnum =
    if ltb 255 (length address)
    then err socks_address_too_long_error
    else add_port (5 ∷ 1 ∷ 0 ∷ 3 ∷ length address % 256 ∷ address) (port_bytes portnum)

-- `4 + (1 + peekbuf[4])` as a `size_t`, where the byte is a `char`.
pub domain_total : Bool → ℕ → ℕ
domain_total signed c =
    if signed && leb 128 c then (4 + (1 + c) + size_mod - 256) % size_mod else 4 + (1 + c)

-- `total`, or the error, from the address type and the byte behind it.
unfoldable pub reply_total : Bool → ℕ → ℕ → ErrorOr ℕ
unfolding domain_total
reply_total signed atype c =
    if atype == 1
    then ok (4 + 4 + 2)
    else if atype == 3
    then ok ((domain_total signed c + 2) % size_mod)
    else if atype == 4
    then ok (4 + 16 + 2)
    else err bad_socks_atype_value_error

discard_reply : Bytes → ErrorOr ℕ → ErrorOr Bool × Bytes
discard_reply buffer (err e) = (err e, buffer)
discard_reply buffer (ok total) =
    if ltb (length buffer) total then (ok false, buffer) else (ok true, drop total buffer)

unfoldable pub parse_connect_response : Bool → Bytes → ErrorOr Bool × Bytes
unfolding reply_total discard_reply
parse_connect_response signed (version ∷ reply ∷ reserved ∷ atype ∷ c ∷ s) =
    let buffer = version ∷ reply ∷ reserved ∷ atype ∷ c ∷ s in
    if not (version == 5)
    then (err bad_socks_version_error, buffer)
    else if not (reply == 0)
    then (err socks_error, buffer)
    else if not (reserved == 0)
    then (err bad_socks_reserved_field_error, buffer)
    else discard_reply buffer (reply_total signed atype c)
parse_connect_response signed buffer = (ok false, buffer)
