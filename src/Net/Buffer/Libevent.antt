-- ===== src/Net/Buffer/Libevent.antt =====
-- What net/buffer.cpp uses of libevent's evbuffer, with the behaviour that libevent documents.
-- `none` stands for a return value that is not 0.
use libight.Prelude.{
  ◌⊎◌, inl, inr, Bool-cases, ℕ, ◌+◌, ◌≡◌, ◌&&◌, List, [], ◌∷◌, ◌++◌, Option, none, some, arith,
  ◌==◌, if◌then◌else◌, length, drop,
}
use libight.Prelude.Bytes.{Bytes}

abbrev pub flat : List Bytes → Bytes
flat [] = []
flat (c ∷ cs) = c ++ flat cs

shift : Option (ℕ × ℕ) → Option (ℕ × ℕ)
shift none = none
shift (some (pos, len)) = some (pos + 1, len)

-- EVBUFFER_EOL_CRLF: a line feed, with the carriage return in front of it if there is one.
unfoldable pub find_eol : Bytes → Option (ℕ × ℕ)
unfolding shift
find_eol [] = none
find_eol (c ∷ []) = if c == b'\n' then some (0, 1) else none
find_eol (c ∷ d ∷ s) =
    if c == b'\n'
    then some (0, 1)
    else if c == b'\r' && d == b'\n'
    then some (0, 2)
    else shift (find_eol (d ∷ s))

pub record Evbuffer : Type 1 where
  pub Buf : Type 0
  -- evbuffer_new
  pub fresh : Buf
  -- evbuffer_peek
  pub chunks : Buf → List Bytes
  -- evbuffer_get_length
  pub get_length : Buf → ℕ
  -- evbuffer_add, and evbuffer_add_reference of memory that nobody else writes
  pub add : Buf → Bytes → Option Buf
  -- evbuffer_add_buffer
  pub add_buffer : Buf → Buf → Option (Buf × Buf)
  -- evbuffer_drain
  pub drain : Buf → ℕ → Option Buf
  -- evbuffer_search_eol: the position and the length of the first end of line
  pub search_eol : Buf → Option (ℕ × ℕ)
  pub fresh_law : flat (chunks fresh) ≡ []
  pub length_law : (b : Buf) → get_length b ≡ length (flat (chunks b))
  pub add_law : (b c : Buf) (s : Bytes) → add b s ≡ some c → flat (chunks c) ≡ flat (chunks b) ++ s
  pub add_buffer_law :
      (b s c t : Buf)
      → add_buffer b s ≡ some (c, t)
      → (flat (chunks c) ≡ flat (chunks b) ++ flat (chunks s)) × (flat (chunks t) ≡ [])
  -- A buffer that nobody froze can be drained, of all its bytes if it has fewer.
  pub drain_law :
      (b : Buf) (n : ℕ)
      → (c : Buf) × (drain b n ≡ some c) × (flat (chunks c) ≡ drop n (flat (chunks b)))
  pub search_eol_law : (b : Buf) → search_eol b ≡ find_eol (flat (chunks b))

shift_length :
    (o : Option (ℕ × ℕ)) (pos len : ℕ) → shift o ≡ some (pos, len) → (p : ℕ) × (o ≡ some (p, len))
unfolding shift
shift_length none pos len h = absurd (cc)
shift_length (some (p, l)) pos len h = (p, ground arith)

-- An end of line has one byte or two.
pub find_eol_length :
    (s : Bytes) (pos len : ℕ) → find_eol s ≡ some (pos, len) → (len ≡ 1) ⊎ (len ≡ 2)
unfolding find_eol
find_eol_length [] pos len h = absurd (cc)
find_eol_length (c ∷ []) pos len h = ground arith
find_eol_length (c ∷ d ∷ s) pos len h = elim (Bool-cases (c == b'\n')) [
  | inl lf ↦ ground (arith, lf)
  | inr other ↦ elim (Bool-cases (c == b'\r' && d == b'\n')) [
    | inl both ↦ ground (arith, other, both)
    | inr neither ↦
        let (p, e) = shift_length (find_eol (d ∷ s)) pos len (rw (other, neither) at h) in
        find_eol_length (d ∷ s) p len e
  ]
]
