-- ===== src/Net/Buffer.antt =====
-- `Buffer` of net/buffer.hpp and net/buffer.cpp, over libevent's evbuffer, which is a parameter.
-- An operation that throws returns `none`. Contents: what the buffer holds, as one byte string.
pub mod Libevent
pub mod Contents
pub mod Refines
use libight.Prelude.{
  ℕ, ◌+◌, ◌-◌, ◌*◌, ◌/◌, ◌%◌, Bool, true, false, not, ◌&&◌, ◌||◌, List, [], ◌∷◌, ◌++◌, Option, none,
  some, ltb, leb, ◌==◌, if◌then◌else◌, length, take,
}
use mathlib.Core.Option
use libight.Prelude.Bytes.{Bytes}
use libight.Common.Error.{ErrorOr, ok, err}
use libight.Net.Errors.{eol_not_found_error, line_too_long_error, not_enough_data_error}
use Libevent.{Evbuffer}
use Contents.{big_endian, uint16, uint32}

-- The lambda that `readpeek` hands to `for_each`, over the chunks that are left: `out` and `nbytes`.
read_chunks : ℕ → Bytes → ℕ → List Bytes → Bytes × ℕ
read_chunks upto out nbytes [] = (out, nbytes)
read_chunks upto out nbytes (c ∷ cs) =
    let n = if ltb upto (length c) then upto else length c in
    let rest = read_chunks (upto - n) (out ++ take n c) (nbytes + n) cs in
    if ltb 0 (upto - n) then rest else (out ++ take n c, nbytes + n)

module _ (e : Evbuffer) where
  open e use {Buf, fresh, chunks, get_length, add, add_buffer, drain, search_eol}

  -- `Buffer(std::string)` and `Buffer(const void *, size_t)`
  unfoldable pub make : Bytes → Option Buf
  make s = add fresh s

  -- `operator<<(Buffer &)`: both buffers change.
  unfoldable pub move_from : Buf → Buf → Option (Buf × Buf)
  move_from b source = add_buffer b source

  unfoldable pub size : Buf → ℕ
  size b = get_length b

  unfoldable pub discard : Buf → ℕ → Option Buf
  discard b count = drain b count

  unfoldable pub readpeek : Buf → Bool → ℕ → Option (Bytes × Buf)
  unfolding read_chunks discard
  readpeek b ispeek upto =
      let (out, nbytes) = read_chunks upto [] 0 (chunks b) in
      if ispeek then some (out, b) else Option.map (λ c. (out, c)) (discard b nbytes)

  unfoldable pub read : Buf → ℕ → Option (Bytes × Buf)
  unfolding readpeek
  read b upto = readpeek b false upto

  unfoldable pub peek : Buf → ℕ → Option (Bytes × Buf)
  unfolding readpeek
  peek b upto = readpeek b true upto

  unfoldable pub readn : Buf → ℕ → Option (Bytes × Buf)
  unfolding size read
  readn b n = if ltb (size b) n then some ([], b) else read b n

  read_line : Buf → ℕ → Option (ℕ × ℕ) → Option (ErrorOr Bytes × Buf)
  unfolding size read
  read_line b maxline none =
      some (if ltb maxline (size b) then err eol_not_found_error else ok [], b)
  read_line b maxline (some (pos, eol_length)) =
      if not (eol_length == 1) && not (eol_length == 2)
      then none
      else if ltb maxline (pos + eol_length)
      then some (err line_too_long_error, b)
      else Option.map (λ r. (ok r.0, r.1)) (read b (pos + eol_length))

  unfoldable pub readline : Buf → ℕ → Option (ErrorOr Bytes × Buf)
  unfolding read_line
  readline b maxline = read_line b maxline (search_eol b)

  unfoldable pub write : Buf → Bytes → Option Buf
  write b s = add b s

  -- `read_uint8`, `read_uint16` and `read_uint32`, for a width of 1, 2 and 4 bytes.
  unfoldable pub read_uint : ℕ → Buf → Option (ErrorOr ℕ × Buf)
  unfolding size read big_endian
  read_uint width b =
      if ltb (size b) width
      then some (err not_enough_data_error, b)
      else Option.map (λ r. (ok (big_endian 0 r.0), r.1)) (read b width)

  unfoldable pub write_uint8 : Buf → ℕ → Option Buf
  unfolding write
  write_uint8 b num = write b (num ∷ [])

  unfoldable pub write_uint16 : Buf → ℕ → Option Buf
  unfolding write
  write_uint16 b num = write b (uint16 num)

  unfoldable pub write_uint32 : Buf → ℕ → Option Buf
  unfolding write
  write_uint32 b num = write b (uint32 num)

  -- `write(size_t, std::function<size_t(void *, size_t)>)`: `filled` is what the function put there.
  unfoldable pub write_with : Buf → ℕ → (ℕ → Bytes) → Option Buf
  write_with b count func =
      let filled = func count in
      if count == 0
      then some b
      else if ltb count (length filled)
      then none
      else if length filled == 0
      then some b
      else add b filled
