-- ===== src/Net/Transport/Cutting.antt =====
-- What `readn` depends on: the bytes that arrive, not how they are cut into events.
use libight.Prelude.{
  ℕ, zero, suc, ◌≤◌, ◌<◌, ◌≡◌, refl, List, [], ◌∷◌, ◌++◌, map, arith, leb, ltb, length, Bool-cases,
  le→leb, ltb→lt, leb→le, inl, inr,
}
use libight.Prelude.Bytes.{Bytes}
use mathlib.Core.List.{append_assoc, map-append}
use libight.Common.Error.{Error, no_error}
use libight.Net.Transport.{Event, data_event, error_event, Reading, calls, waits, on_events, readn}

-- A byte, or the place where the connection reports an error.
pub data Item : Type 0 where
  byte : ℕ → Item
  broken : Error → Item

abbrev pub bytes : Bytes → List Item
bytes = map byte

unfoldable pub flat : List Event → List Item
flat [] = []
flat (data_event d ∷ es) = bytes d ++ flat es
flat (error_event e ∷ es) = broken e ∷ flat es

-- What is still to be read.
unfoldable pub view : Bytes → List Event → List Item
unfolding flat
view buff es = bytes buff ++ flat es

-- What becomes of a wait for some bytes.
pub data Awaited : Type 0 where
  enough : Awaited
  lost : Error → List Item → Awaited
  short : Awaited

abbrev pub kept : ℕ → Awaited → Awaited
kept b enough = enough
kept b (lost e is) = lost e (byte b ∷ is)
kept b short = short

unfoldable pub await : ℕ → List Item → Awaited
await zero is = enough
await (suc n) [] = short
await (suc n) (byte b ∷ is) = kept b (await n is)
await (suc n) (broken e ∷ is) = lost e is

await_enough :
    (n : ℕ) (b : Bytes) (is : List Item) → n ≤ length b → await n (bytes b ++ is) ≡ enough
unfolding await
await_enough zero b is h = refl
await_enough (suc n) [] is h = absurd (omega arith)
await_enough (suc n) (x ∷ b) is h = rw (await_enough n b is (omega arith)) refl

await_short : (n : ℕ) (b : Bytes) → length b < n → await n (bytes b ++ []) ≡ short
unfolding await
await_short zero b h = absurd (omega arith)
await_short (suc n) [] h = refl
await_short (suc n) (x ∷ b) h = rw (await_short n b (omega arith)) refl

await_lost :
    (n : ℕ) (b : Bytes) (e : Error) (is : List Item)
    → length b < n
    → await n (bytes b ++ broken e ∷ is) ≡ lost e (bytes b ++ is)
unfolding await
await_lost zero b e is h = absurd (omega arith)
await_lost (suc n) [] e is h = refl
await_lost (suc n) (x ∷ b) e is h = rw (await_lost n b e is (omega arith)) refl

-- What a read does, by what becomes of the wait.
abbrev pub Matches : ℕ → List Item → Awaited → Reading → Type 0
Matches n is enough r =
    (b : Bytes) × (es : List Event) × (r ≡ calls no_error b es) × (view b es ≡ is) × (n ≤ length b)
Matches n is (lost e rest) r =
    (b : Bytes) × (es : List Event) × (r ≡ calls e b es) × (view b es ≡ rest)
Matches n is short r = (b : Bytes) × (r ≡ waits b) × (view b [] ≡ is)

view-data : (b d : Bytes) (es : List Event) → view b (data_event d ∷ es) ≡ view (b ++ d) es
unfolding view
view-data b d es = simp (map-append, append_assoc)

await-enough : (n : ℕ) (b : Bytes) (es : List Event) → n ≤ length b → await n (view b es) ≡ enough
unfolding view
await-enough n b es h = await_enough n b (flat es) h

await-short : (n : ℕ) (b : Bytes) → length b < n → await n (view b []) ≡ short
unfolding view flat
await-short n b h = await_short n b h

await-lost :
    (n : ℕ) (b : Bytes) (e : Error) (es : List Event)
    → length b < n
    → await n (view b (error_event e ∷ es)) ≡ lost e (view b es)
unfolding view flat
await-lost n b e es h = await_lost n b e (flat es) h

readn-enough :
    (n : ℕ) (b : Bytes) (es : List Event)
    → n ≤ length b
    → Matches n (view b es) (await n (view b es)) (readn n b es)
unfolding readn
readn-enough n b es h = rw (await-enough n b es h, le→leb n (length b) h) (b, es, refl, refl, h)

-- The handlers do what becomes of the wait, when the buffer does not hold enough.
on_events-Matches :
    (n : ℕ) (b : Bytes) (es : List Event)
    → length b < n
    → Matches n (view b es) (await n (view b es)) (on_events n b es)
unfolding on_events
on_events-Matches n b [] h = rw (await-short n b h) (b, refl, refl)
on_events-Matches n b (error_event e ∷ es) h = rw (await-lost n b e es h) (b, es, refl, refl)
on_events-Matches n b (data_event d ∷ es) h = elim (Bool-cases (ltb (length (b ++ d)) n)) [
  | inl more ↦ rw (view-data b d es, more) (on_events-Matches n (b ++ d) es (ltb→lt _ _ more))
  | inr done ↦
      rw (view-data b d es, await-enough n (b ++ d) es (ground arith), done)
        (b ++ d, es, refl, refl, ground arith)
]

-- `readn` does what becomes of the wait for the bytes in the buffer and those to come.
pub readn-Matches :
    (n : ℕ) (b : Bytes) (es : List Event)
    → Matches n (view b es) (await n (view b es)) (readn n b es)
readn-Matches n b es = elim (Bool-cases (leb n (length b))) [
  | inl have ↦ readn-enough n b es (leb→le _ _ have)
  | inr wanting ↦ unfold readn in rw wanting (on_events-Matches n b es (ground arith))
]
