-- ===== src/Net/Buffer/Refines.antt =====
-- `Buffer` over any evbuffer that behaves as documented does to its bytes what Contents says.
use mathlib.Core.List.{append-nil, append_assoc}
use mathlib.Core.Option
use libight.Prelude.{
  ℕ, ◌+◌, ◌-◌, ◌<◌, ◌≡◌, refl, ap, ◌∙◌, ◌⊎◌, inl, inr, Bool, false, List, [], ◌∷◌, ◌++◌, Option,
  none, some, arith, ltb, if◌then◌else◌, length, length-append, take, drop, take_all,
  take-append_le, take-append_ge, drop-min, take-nil, Bool-cases,
}
use libight.Prelude.Bytes.{Bytes}
use Prim.Native.Nat.{min}
use libight.Common.Error.{ErrorOr, ok, err}
use libight.Net.Errors.{eol_not_found_error, line_too_long_error, not_enough_data_error}
use libight.Net.Buffer.Libevent.{Evbuffer, flat, find_eol_length, find_eol}
use libight.Net.Buffer.Contents.{
  big_endian, readn_contents, readline_contents, line_at, uint16, read_uint_contents, read_uint16,
}
use libight.Net.Buffer.{
  read_chunks, read_line, readpeek, read, readn, readline, read_uint, write_uint16, move_from,
}

-- Reading chunk by chunk is taking from the bytes of all of them.
read_chunks-take :
    (upto : ℕ) (out : Bytes) (nbytes : ℕ) (cs : List Bytes)
    → read_chunks upto out nbytes cs
      ≡ (out ++ take upto (flat cs), nbytes + min upto (length (flat cs)))
unfolding read_chunks
read_chunks-take upto out nbytes [] = ground (arith, take-nil {A = ℕ} upto, append-nil out)
read_chunks-take upto out nbytes (c ∷ cs) = ground (
  arith,
  take-append_le upto c (flat cs),
  take-append_ge upto c (flat cs),
  take_all (length c) c,
  length-append c (flat cs),
  append_assoc out c (take (upto - length c) (flat cs)),
  read_chunks-take (upto - length c) (out ++ take (length c) c) (nbytes + length c) cs,
  append-nil c,
)

module _ (e : Evbuffer) where
  open e use {
    Buf, chunks, get_length, drain, length_law, drain_law, search_eol, search_eol_law, add_law,
    add_buffer_law,
  }

  abbrev pub content : Buf → Bytes
  content b = flat (chunks b)

  -- Reading returns the first bytes and drains just those; peeking returns them and drains none.
  pub readpeek_lem :
      (b : Buf) (ispeek : Bool) (upto : ℕ)
      → readpeek e b ispeek upto ≡ (
          if ispeek
          then some (take upto (content b), b)
          else Option.map
              (λ c. (take upto (content b), c))
              (drain b (min upto (length (content b)))))
  unfolding readpeek
  readpeek_lem b ispeek upto =
      let z : 0 + min upto (length (content b)) ≡ min upto (length (content b)) = omega arith in
      rw (read_chunks-take upto [] 0 (chunks b), z) refl

  -- `read` always returns: the first bytes, and a buffer of the others.
  pub read_lem :
      (b : Buf) (upto : ℕ)
      → (c : Buf) × (read e b upto ≡ some (take upto (content b), c))
        × (content c ≡ drop upto (content b))
  unfolding read
  read_lem b upto =
      let (c, drained, rest) = drain_law b (min upto (length (content b))) in
      (
        c,
        readpeek_lem b false upto ∙ ap (Option.map (λ d. (take upto (content b), d))) drained,
        rest ∙ drop-min upto (content b),
      )

  -- `readn` always returns, and takes all of the bytes or none.
  pub readn_lem :
      (b : Buf) (n : ℕ)
      → (out : Bytes) × (c : Buf) × (readn e b n ≡ some (out, c))
        × ◌≡◌ {A = Bytes × Bytes} (out, content c) (readn_contents (content b) n)
  unfolding readn
  readn_lem b n = elim (Bool-cases (ltb (length (content b)) n)) [
    | inl short ↦ ([], b, rw (length_law b, short) refl, rw short refl)
    | inr enough ↦
        let (c, got, rest) = read_lem b n in
        (take n (content b), c, rw (length_law b, enough) got, rw (enough, rest) refl)
  ]

  read_line_lem :
      (b : Buf) (maxline : ℕ) (place : Option (ℕ × ℕ))
      → ((pos len : ℕ) → place ≡ some (pos, len) → (len ≡ 1) ⊎ (len ≡ 2))
      → (line : ErrorOr Bytes) × (c : Buf) × (read_line e b maxline place ≡ some (line, c))
        × ◌≡◌ {A = ErrorOr Bytes × Bytes} (line, content c) (line_at (content b) maxline place)
  unfolding read_line line_at
  read_line_lem b maxline none k = (
    if ltb maxline (length (content b)) then err eol_not_found_error else ok [],
    b,
    rw (length_law b) refl,
    refl,
  )
  read_line_lem b maxline (some (pos, n)) k = elim (Bool-cases (ltb maxline (pos + n))) [
    | inl long ↦ (err line_too_long_error, b, ground (arith, k pos n refl, long), rw long refl)
    | inr short ↦
        let (c, got, rest) = read_lem b (pos + n) in
        (
          ok (take (pos + n) (content b)),
          c,
          ground (arith, k pos n refl, short, got),
          rw (short, rest) refl,
        )
  ]

  -- `readline` always returns what its contract says.
  pub readline_lem :
      (b : Buf) (maxline : ℕ)
      → (line : ErrorOr Bytes) × (c : Buf) × (readline e b maxline ≡ some (line, c))
        × ◌≡◌ {A = ErrorOr Bytes × Bytes} (line, content c) (readline_contents (content b) maxline)
  unfolding readline readline_contents
  readline_lem b maxline =
      rw (search_eol_law b)
        (read_line_lem b maxline (find_eol (content b)) (find_eol_length (content b)))

  -- `read_uint8`, `read_uint16` and `read_uint32` always return what their contract says.
  pub read_uint_lem :
      (b : Buf) (width : ℕ)
      → (r : ErrorOr ℕ) × (c : Buf) × (read_uint e width b ≡ some (r, c))
        × ◌≡◌ {A = ErrorOr ℕ × Bytes} (r, content c) (read_uint_contents width (content b))
  unfolding read_uint read_uint_contents
  read_uint_lem b width = elim (Bool-cases (ltb (length (content b)) width)) [
    | inl short ↦ (err not_enough_data_error, b, rw (length_law b, short) refl, rw short refl)
    | inr enough ↦
        let (c, got, rest) = read_lem b width in
        (
          ok (big_endian 0 (take width (content b))),
          c,
          rw (length_law b, enough, got) refl,
          rw (enough, rest) refl,
        )
  ]

  -- A number that was written to an empty buffer is read back, and nothing is left.
  pub read_uint16-write_uint16 :
      (b c : Buf) (num : ℕ)
      → num < 65536
      → content b ≡ []
      → write_uint16 e b num ≡ some c
      → (d : Buf) × (read_uint e 2 c ≡ some (ok num, d)) × (content d ≡ [])
  unfolding write_uint16
  read_uint16-write_uint16 b c num h empty w =
      let (r, d, got, same) = read_uint_lem c 2 in
      let all : ◌≡◌ {A = ErrorOr ℕ × Bytes} (r, content d) (ok num, []) =
        same
        ∙ ap (read_uint_contents 2) (add_law b c (uint16 num) w ∙ ap (λ s. s ++ uint16 num) empty)
        ∙ read_uint16 num [] h in
      (d, got ∙ ap (λ x. some (x, d)) (ap (λ z. z.0) all), ap (λ z. z.1) all)

  -- Moving a buffer to the end of another one empties it.
  pub move_from_lem :
      (b source c t : Buf)
      → move_from e b source ≡ some (c, t)
      → (content c ≡ content b ++ content source) × (content t ≡ [])
  unfolding move_from
  move_from_lem b source c t h = add_buffer_law b source c t h
