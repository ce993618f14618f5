-- ===== src/Ndt/Bounds.antt =====
-- What the download test accepts of the message that prepares it.
use libight.Prelude.{
  ℕ, ◌≤◌, ◌<◌, ◌≡◌, refl, true, List, [], ◌++◌, arith, Option, none, some, get_elem?, length,
}
use libight.Prelude.Bytes.{Bytes}
use mathlib.Core.Path.{subst}
use libight.Prelude.Int.{ℤ, pos, negsuc}
use libight.Common.Error.{ErrorOr, ok, err}
use libight.Common.Scalar.{lexical_cast_int}
use libight.Common.Text.Split.{split}
use libight.Ndt.Context.{
  Context, Params, Outcome, returns, fails, waits, faults, spins, M, bind, pure,
}
use libight.Ndt.Messages.{Json, test_prepare, read_msg, read_json, parsed, text_of}
use libight.Ndt.Subtests.{
  port_of, first_word, duration_of, snaps_delay_of, num_streams_read, num_streams_of, params_of,
  expect, run_s2c,
}
use libight.Ndt.Framing.{message, read_ll-message}

-- A result of a chain is a result of the last step, after a result of the first.
bind-returns :
    {A B : Type 0} (P : B → Type 0) (o : Outcome A) (f : A → M B)
    → ((a : A) (c : Context) → o ≡ returns a c → (b : B) (d : Context) → f a c ≡ returns b d → P b)
    → (b : B) (d : Context) → bind o f ≡ returns b d
    → P b
bind-returns P (returns a c) f k b d h = k a c refl b d h
bind-returns P (fails e c) f k b d h = absurd (ground arith)
bind-returns P (waits c) f k b d h = absurd (ground arith)
bind-returns P faults f k b d h = absurd (ground arith)
bind-returns P spins f k b d h = absurd (ground arith)

pure-returns :
    {A : Type 0} (P : A → Type 0) (a : A) (c : Context)
    → P a
    → (b : A) (d : Context) → pure a c ≡ returns b d
    → P b
pure-returns P a c pa b d h = let e : a ≡ b = cc in subst P e pa

abbrev pub InRange : ℕ → ℕ → ℤ → Type 0
InRange lo hi z = (n : ℕ) × (z ≡ pos n) × (lo ≤ n) × (n ≤ hi)

abbrev pub InBounds : Params → Type 0
InBounds p = InRange 0 65535 p.port × InRange 1 8 p.num_streams

port_of_bounds :
    (r : ErrorOr ℤ) (c d : Context) (p : ℤ) → port_of r c ≡ returns p d → InRange 0 65535 p
unfolding port_of
port_of_bounds (err e) c d p h = absurd (ground arith)
port_of_bounds (ok (negsuc n)) c d p h = absurd (ground arith)
port_of_bounds (ok (pos n)) c d p h = (n, ground arith, omega arith, ground arith)

num_streams_read_bounds :
    (r : ErrorOr ℤ) (c d : Context) (p : ℤ) → num_streams_read r c ≡ returns p d → InRange 1 8 p
unfolding num_streams_read
num_streams_read_bounds (err e) c d p h = absurd (ground arith)
num_streams_read_bounds (ok (negsuc n)) c d p h = absurd (ground arith)
num_streams_read_bounds (ok (pos n)) c d p h = (n, ground arith, ground arith, ground arith)

num_streams_of_bounds :
    (o : Option Bytes) (c d : Context) (p : ℤ) → num_streams_of o c ≡ returns p d → InRange 1 8 p
unfolding num_streams_of
num_streams_of_bounds none c d p h = (1, cc, omega arith, omega arith)
num_streams_of_bounds (some s) c d p h = num_streams_read_bounds (lexical_cast_int s) c d p h

-- Whatever words the server sends, parameters that are accepted have a port of at most 65535, and 1
-- to 8 streams.
pub params_of_bounds :
    (j : Json) (vec : List Bytes) (c d : Context) (p : Params)
    → params_of j vec c ≡ returns p d
    → InBounds p
unfolding params_of
params_of_bounds j vec c d p h =
    bind-returns InBounds (first_word vec c) _
      (λ word c1 e1. bind-returns InBounds (port_of (lexical_cast_int word) c1) _ (λ port c2 e2.
        bind-returns InBounds (duration_of j (get_elem? vec 1) c2) _ (λ duration c3 e3.
          bind-returns InBounds (snaps_delay_of j (get_elem? vec 3) c3) _ (λ delay c4 e4.
            bind-returns InBounds (num_streams_of (get_elem? vec 5) c4) _ (λ streams c5 e5.
              pure-returns InBounds _ c5 (
                port_of_bounds (lexical_cast_int word) c1 c2 port e2,
                num_streams_of_bounds (get_elem? vec 5) c4 c5 streams e5,
              ))))))
      p d h

-- Where the server prepares the test by a message without any text, the first word is read out of an
-- empty vector.
pub run_s2c_empty :
    (j : Json) (c : Context) (m rest : Bytes)
    → j.is_json m ≡ true
    → j.msg_of m ≡ some []
    → length m < 65536
    → run_s2c j (record c { buff = message test_prepare m ++ rest }) ≡ faults
unfolding run_s2c expect read_msg read_json parsed text_of params_of first_word split
run_s2c_empty j c m rest is empty fits = rw (read_ll-message c test_prepare m rest fits, is, empty)
