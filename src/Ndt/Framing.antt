-- ===== src/Ndt/Framing.antt =====
-- A message in the stream is read as it was made.
use libight.Prelude.{
  ℕ, ◌+◌, ◌≤◌, ◌<◌, ◌≡◌, refl, true, false, List, ◌∷◌, ◌++◌, arith, ltb, ◌==◌, length,
  length-append, take-append, drop-append, All, le→leb,
}
use libight.Prelude.Bytes.{Bytes}
use mathlib.Core.Path.{subst}
use libight.Common.Error.{ok}
use libight.Net.Transport.{Event, readn}
use libight.Net.Transport.Cutting.{view}
use libight.Net.Buffer.Contents.{read_uint_contents, uint16, read_uint16}
use libight.Ndt.Context.{Context, Outcome, returns}
use libight.Ndt.Messages.{await_bytes, take_uint, take_bytes, read_ll, format_any}
use libight.Ndt.Protocol.{available}
use libight.Ndt.Cutting.{IsReal, items, Same, Agree, both_return, both_fail, both_wait, both_fault}
use libight.Ndt.Cutting.Reads.{read_ll-Takes}

abbrev pub message : ℕ → Bytes → Bytes
message type p = type ∷ (uint16 (length p) ++ p)

await_have : (n : ℕ) (c : Context) → n ≤ length c.buff → await_bytes n c ≡ returns tt c
unfolding await_bytes readn
await_have n c h = rw (le→leb n (length c.buff) h) refl

take_payload :
    (c : Context) (p rest : Bytes)
    → take_bytes (length p) (record c { buff = p ++ rest }) ≡ returns p (record c { buff = rest })
unfolding take_bytes
take_payload c p rest =
    let e : ltb (length (p ++ rest)) (length p) ≡ false = ground (arith, length-append p rest) in
    let l : (length p == length p) ≡ true = ground arith in
    rw (e, take-append p rest, drop-append p rest, l)

take_type :
    (c : Context) (x : ℕ) (s : Bytes)
    → take_uint 1 (record c { buff = x ∷ s }) ≡ returns x (record c { buff = s })
unfolding take_uint read_uint_contents
take_type c x s =
    let e : ltb (length (x ∷ s)) 1 ≡ false = ground arith in
    let z : 0 + x ≡ x = omega arith in rw (e, z)

take_length :
    (c : Context) (n : ℕ) (s : Bytes)
    → n < 65536
    → take_uint 2 (record c { buff = uint16 n ++ s }) ≡ returns n (record c { buff = s })
unfolding take_uint
take_length c n s h = rw (read_uint16 n s h) refl

-- A message in the buffer is read.
pub read_ll-message :
    (c : Context) (type : ℕ) (p rest : Bytes)
    → length p < 65536
    → read_ll (record c { buff = message type p ++ rest })
      ≡ returns (type, p) (record c { buff = rest })
unfolding read_ll
read_ll-message c type p rest h = rw (
  await_have 3 (record c { buff = message type p ++ rest }) (omega arith),
  take_type c type (uint16 (length p) ++ (p ++ rest)),
  take_length c (length p) (p ++ rest) h,
  await_have (length p) (record c { buff = p ++ rest }) (omega (arith, length-append p rest)),
  take_payload c p rest,
)

pub Agree-returns :
    {A : Type 0} (k n : ℕ) {o p : Outcome A} (a : A) (d : Context)
    → Agree k n o p
    → p ≡ returns a d
    → (c : Context) × (o ≡ returns a c) × Same c d
Agree-returns k n a d (both_return b {c = c} {d = d'} s h) e =
    let q : d' ≡ d = cc in (c, cc, subst (λ x. Same c x) q s)
Agree-returns k n a d (both_fail x s h) e = absurd (ground arith)
Agree-returns k n a d (both_wait s) e = absurd (ground arith)
Agree-returns k n a d both_fault e = absurd (ground arith)

pub given-Same :
    (c : Context) (b : Bytes) (es : List Event)
    → items c ≡ view b es
    → All IsReal (items c)
    → Same c (record c { buff = b; incoming = es })
given-Same c b es e h = record {
  items_same = e;
  real = h;
  flushes_same = refl;
  written_same = refl;
  flows_same = refl;
  started_same = refl;
  suite_same = refl;
  entry_same = refl;
}

pub format_any-message :
    (type : ℕ) (p out : Bytes)
    → format_any type p ≡ ok out
    → (out ≡ message type p) × (length p < 65536)
unfolding format_any
format_any-message type p out h = (ground arith, ground arith)

-- A message that was made is read back with its type and its text, however it is cut and whatever
-- comes after it, and just what comes after it is left.
pub read_ll-format_any :
    (type : ℕ) (p out rest : Bytes) (es : List Event) (c : Context)
    → format_any type p ≡ ok out
    → items c ≡ view (out ++ rest) es
    → All IsReal (items c)
    → (c' : Context) × (read_ll c ≡ returns (type, p) c')
      × Same c' (record c { buff = rest; incoming = es })
read_ll-format_any type p out rest es c h e real =
    let (is_message, fits) = format_any-message type p out h in
    let d : Context = record c { buff = out ++ rest; incoming = es } in
    Agree-returns 3 (available c) (type, p) (record d { buff = rest })
      (read_ll-Takes c d (given-Same c (out ++ rest) es e real))
      (rw is_message (read_ll-message d type p rest fits))
