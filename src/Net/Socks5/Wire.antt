-- ===== src/Net/Socks5/Wire.antt =====
-- The messages of the SOCKSv5 client against RFC 1928.
use libight.Prelude.{
  ℕ, ◌+◌, ◌*◌, ◌^◌, ◌≤◌, ◌<◌, ◌≡◌, ◌≢◌, refl, Bool, true, false, ◌&&◌, [], ◌∷◌, ◌++◌, Option, none,
  some, arith, ◌==◌, if◌then◌else◌, length, length-append, take, drop, drop-append, List-cases,
}
use libight.Prelude.Bytes.{Bytes}
use libight.Prelude.Int.{ℤ}
use libight.Common.Error.{ok, err}
use libight.Net.Errors.{socks_address_too_long_error}
use libight.Net.Socks5.{format_connect_request, parse_connect_response, reply_total}

decode_port : Bytes → Bytes → Option (Bytes × ℕ)
decode_port name (hi ∷ lo ∷ []) = some (name, hi * 256 + lo)
decode_port name _ = none

-- A CONNECT request with a domain name, read as RFC 1928 says: the name and the port.
pub decode_request : Bytes → Option (Bytes × ℕ)
unfolding decode_port
decode_request (version ∷ command ∷ reserved ∷ atype ∷ n ∷ s) =
    if version == 5 && command == 1 && reserved == 0 && atype == 3
    then decode_port (take n s) (drop n s)
    else none
decode_request _ = none

pub format_refuses_long :
    (address : Bytes) (port : ℤ)
    → 255 < length address
    → format_connect_request address port ≡ err socks_address_too_long_error
unfolding format_connect_request
format_refuses_long address port h = ground arith

-- A complete reply that grants the request, with an IPv4 address, a name or an IPv6 address. The
-- name is below 128 bytes where `char` is signed.
pub data IsReply (signed : Bool) (r : Bytes) : Type 0 where
  ipv4 : (body : Bytes) → length body ≡ 6 → r ≡ 5 ∷ 0 ∷ 0 ∷ 1 ∷ body → IsReply signed r
  ipv6 : (body : Bytes) → length body ≡ 18 → r ≡ 5 ∷ 0 ∷ 0 ∷ 4 ∷ body → IsReply signed r
  domain :
      (name port : Bytes)
      → length name < (if signed then 128 else 256)
      → length port ≡ 2
      → r ≡ 5 ∷ 0 ∷ 0 ∷ 3 ∷ length name ∷ (name ++ port)
      → IsReply signed r

abbrev Shape : Bool → Bytes → Type 0
Shape signed r =
    (a : ℕ) × (c : ℕ) × (cs : Bytes) × (r ≡ 5 ∷ 0 ∷ 0 ∷ a ∷ c ∷ cs)
    × (reply_total signed a c ≡ ok (5 + length cs))

IsReply-Shape : (signed : Bool) (r : Bytes) → IsReply signed r → Shape signed r
unfolding reply_total
IsReply-Shape signed r (ipv4 [] n e) = absurd (omega arith)
IsReply-Shape signed r (ipv4 (c ∷ cs) n e) = (1, c, cs, e, ground arith)
IsReply-Shape signed r (ipv6 [] n e) = absurd (omega arith)
IsReply-Shape signed r (ipv6 (c ∷ cs) n e) = (4, c, cs, e, ground arith)
IsReply-Shape signed r (domain name port small n e) =
    (3, length name, name ++ port, e, ground (arith, length-append name port))

-- A complete reply is taken off the buffer, and what follows it stays.
pub parse_complete :
    (signed : Bool) (r rest : Bytes)
    → IsReply signed r
    → parse_connect_response signed (r ++ rest) ≡ (ok true, rest)
unfolding parse_connect_response
parse_complete signed r rest h =
    let (a, c, cs, e, total) = IsReply-Shape signed r h in
    rw e (ground (arith, total, length-append cs rest, drop-append cs rest))

-- Of an incomplete reply nothing is taken.
pub parse_partial :
    (signed : Bool) (p q : Bytes)
    → IsReply signed (p ++ q)
    → q ≢ []
    → parse_connect_response signed p ≡ (ok false, p)
unfolding parse_connect_response
parse_partial signed (a ∷ b ∷ c ∷ d ∷ f ∷ p) q h more =
    let (a', c', cs, e, total) = IsReply-Shape signed (a ∷ b ∷ c ∷ d ∷ f ∷ (p ++ q)) h in
    ground (arith, total, e, length-append p q, List-cases q, more)
parse_partial signed p q h more = refl

-- Where `char` is signed, a reply with a name of 128 to 248 bytes is never complete.
pub long_name_stalls :
    (n : ℕ) (t : Bytes)
    → 128 ≤ n
    → n < 249
    → length t < 2 ^ 63
    → parse_connect_response true (5 ∷ 0 ∷ 0 ∷ 3 ∷ n ∷ t) ≡ (ok false, 5 ∷ 0 ∷ 0 ∷ 3 ∷ n ∷ t)
unfolding parse_connect_response
long_name_stalls n t lo hi short = ground arith
