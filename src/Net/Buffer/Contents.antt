-- ===== src/Net/Buffer/Contents.antt =====
-- The contract of `Buffer` on the bytes that it holds, for the modules that use buffers.
use libight.Prelude.{
  ℕ, ◌+◌, ◌*◌, ◌/◌, ◌%◌, ◌≡◌, ◌<◌, arith, [], ◌∷◌, ◌++◌, ltb, if◌then◌else◌, length, take, drop,
  Option, none, some,
}
use libight.Prelude.Bytes.{Bytes}
use libight.Common.Error.{ErrorOr, ok, err}
use libight.Net.Errors.{eol_not_found_error, line_too_long_error, not_enough_data_error}
use libight.Net.Buffer.Libevent.{find_eol}

-- What `readn` returns and what is left.
abbrev pub readn_contents : Bytes → ℕ → Bytes × Bytes
readn_contents s n = if ltb (length s) n then ([], s) else (take n s, drop n s)

unfoldable pub line_at : Bytes → ℕ → Option (ℕ × ℕ) → ErrorOr Bytes × Bytes
line_at s maxline none = (if ltb maxline (length s) then err eol_not_found_error else ok [], s)
line_at s maxline (some (pos, len)) =
    if ltb maxline (pos + len)
    then (err line_too_long_error, s)
    else (ok (take (pos + len) s), drop (pos + len) s)

-- What `readline` returns and what is left.
unfoldable pub readline_contents : Bytes → ℕ → ErrorOr Bytes × Bytes
unfolding line_at
readline_contents s maxline = line_at s maxline (find_eol s)

-- `memcpy` into an integer and `ntohs` or `ntohl`: the first byte is the highest.
unfoldable pub big_endian : ℕ → Bytes → ℕ
big_endian acc [] = acc
big_endian acc (c ∷ s) = big_endian (acc * 256 + c) s

-- What `read_uint8`, `read_uint16` and `read_uint32` return, at a width of 1, 2 and 4 bytes.
unfoldable pub read_uint_contents : ℕ → Bytes → ErrorOr ℕ × Bytes
unfolding big_endian
read_uint_contents width s =
    if ltb (length s) width
    then (err not_enough_data_error, s)
    else (ok (big_endian 0 (take width s)), drop width s)

-- The bytes that `write_uint16` adds: `htons`.
abbrev pub uint16 : ℕ → Bytes
uint16 num = num / 256 ∷ num % 256 ∷ []

-- The bytes that `write_uint32` adds: `htonl`.
abbrev pub uint32 : ℕ → Bytes
uint32 num = num / 16777216 ∷ num / 65536 % 256 ∷ num / 256 % 256 ∷ num % 256 ∷ []

pub read_uint16 :
    (num : ℕ) (rest : Bytes)
    → num < 65536
    → read_uint_contents 2 (uint16 num ++ rest) ≡ (ok num, rest)
unfolding read_uint_contents
read_uint16 num rest h = ground arith

pub read_uint32 :
    (num : ℕ) (rest : Bytes)
    → num < 4294967296
    → read_uint_contents 4 (uint32 num ++ rest) ≡ (ok num, rest)
unfolding read_uint_contents
read_uint32 num rest h = ground arith
