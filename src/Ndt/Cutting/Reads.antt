-- ===== src/Ndt/Cutting/Reads.antt =====
-- Reading a message depends on the bytes that arrive only, and takes three of them at least.
use libight.Prelude.{
  ℕ, zero, suc, ◌+◌, ◌≤◌, ◌≡◌, refl, sym, ap, ◌∙◌, Bool, true, false, List, [], ◌∷◌, arith, Option,
  none, some, ltb, ◌==◌, length, take, drop, All, length-take, length-drop,
}
use libight.Prelude.Bytes.{Bytes}
use libight.Common.Error.{json_processing_error, Error, is_error}
use libight.Net.Transport.{Event, Reading, readn}
use libight.Net.Transport.Cutting.{
  Item, byte, broken, view, Awaited, enough, lost, short, await, kept, Matches, readn-Matches,
}
use libight.Net.Buffer.Contents.{read_uint_contents}
use libight.Ndt.Context.{
  Context, Outcome, returns, fails, waits, M, bind, ◌>>=◌, ◌>>◌, map_failure, with_error,
}
use libight.Ndt.Messages.{
  Json, parsed, text_of, received, await_bytes, take_uint, take_bytes, read_ll, read_json, read_msg,
}
use libight.Ndt.Protocol.{arriving, available}
use libight.Ndt.Cutting.{
  IsReal, items, Same, Agree, both_fail, both_wait, Takes, Steady, Agree-weaken, bind-Takes,
  pure-Steady, fail-Steady, byte_count, available-items,
}

-- Two waits for `n` bytes that go the same way.
data Awaits (n m : ℕ) : Outcome (Unit {0}) → Outcome (Unit {0}) → Type 0 where
  got :
      {c d : Context}
      → Same c d
      → n ≤ length c.buff
      → n ≤ length d.buff
      → available c ≤ m
      → Awaits n m (returns tt c) (returns tt d)
  lost_both :
      (e : Error) {c d : Context} → Same c d → available c ≤ m → Awaits n m (fails e c) (fails e d)
  wait_both : {c d : Context} → Same c d → Awaits n m (waits c) (waits d)

abbrev LosesReal : List Item → Awaited → Type 0
LosesReal is (lost e rest) =
    (is_error e ≡ true) × All IsReal rest × (byte_count rest ≤ byte_count is)
LosesReal is enough = Unit
LosesReal is short = Unit

kept-LosesReal :
    (b : ℕ) (is : List Item) (w : Awaited) → LosesReal is w → LosesReal (byte b ∷ is) (kept b w)
unfolding byte_count
kept-LosesReal b is enough h = tt
kept-LosesReal b is short h = tt
kept-LosesReal b is (lost e rest) h = (h.0, (tt, h.1), omega (arith, h.2))

await-LosesReal : (n : ℕ) (is : List Item) → All IsReal is → LosesReal is (await n is)
unfolding await byte_count
await-LosesReal zero is h = tt
await-LosesReal (suc n) [] h = tt
await-LosesReal (suc n) (byte b ∷ is) h =
    kept-LosesReal b is (await n is) (await-LosesReal n is h.1)
await-LosesReal (suc n) (broken e ∷ is) h = (h.0, h.1, omega arith)

read-Same :
    (c d : Context) (b b' : Bytes) (es es' : List Event)
    → Same c d
    → view b es ≡ view b' es'
    → All IsReal (view b es)
    → Same (record c { buff = b; incoming = es }) (record d { buff = b'; incoming = es' })
read-Same c d b b' es es' s e h = record {
  items_same = e;
  real = h;
  flushes_same = s.flushes_same;
  written_same = s.written_same;
  flows_same = s.flows_same;
  started_same = s.started_same;
  suite_same = s.suite_same;
  entry_same = s.entry_same;
}

available-view :
    (c : Context) (b : Bytes) (es : List Event) (is : List Item)
    → view b es ≡ is
    → length b + arriving es ≡ byte_count is
available-view c b es is e =
    sym (available-items (record c { buff = b; incoming = es })) ∙ ap byte_count e

received-Awaits :
    (n : ℕ) (c d : Context) (w : Awaited) (r r' : Reading)
    → Same c d
    → LosesReal (items c) w
    → Matches n (items c) w r
    → Matches n (items c) w r'
    → Awaits n (available c) (received c r) (received d r')
unfolding received
received-Awaits n c d enough r r' s l (b, es, e, v, h) (b', es', e', v', h') =
    rw (e, e')
      (got (read-Same c d b b' es es' s (v ∙ sym v') (rw v s.real)) h h'
        (omega (arith, available-view c b es (items c) v, available-items c)))
received-Awaits n c d (lost x rest) r r' s l (b, es, e, v) (b', es', e', v') =
    rw (e, e', l.0)
      (lost_both x (read-Same c d b b' es es' s (v ∙ sym v') (rw v l.1))
        (omega (arith, l.2, available-view c b es rest v, available-items c)))
received-Awaits n c d short r r' s l (b, e, v) (b', e', v') =
    rw (e, e') (wait_both (read-Same c d b b' [] [] s (v ∙ sym v') (rw v s.real)))

await_bytes-Awaits :
    (n : ℕ) (c d : Context) → Same c d → Awaits n (available c) (await_bytes n c) (await_bytes n d)
unfolding await_bytes
await_bytes-Awaits n c d s =
    received-Awaits n c d (await n (items c)) (readn n c.buff c.incoming)
      (readn n d.buff d.incoming) s (await-LosesReal n (items c) s.real)
      (readn-Matches n c.buff c.incoming) (rw s.items_same (readn-Matches n d.buff d.incoming))

-- What follows a wait may rely on the bytes in both buffers.
Awaits-then :
    {B : Type 0} (n j m : ℕ) (g : Error → Error) (k : M B) {o p : Outcome (Unit {0})}
    → Awaits n m o p
    → ((c d : Context)
        → Same c d
        → n ≤ length c.buff
        → n ≤ length d.buff
        → Agree j (available c) (k c) (k d))
    → Agree j m (bind (map_failure g o) (λ _. k)) (bind (map_failure g p) (λ _. k))
Awaits-then n j m g k (got {c} {d} s h h' l) next =
    Agree-weaken j j (available c) m (next c d s h h') (omega arith) (omega arith)
Awaits-then n j m g k (lost_both e s l) next = both_fail (g e) s l
Awaits-then n j m g k (wait_both s) next = both_wait s

-- Of two buffers that hold the next `k` bytes, these are the same, and so is what is left.
taken_same :
    (k : ℕ) (b b' : Bytes) (es es' : List Event)
    → k ≤ length b
    → k ≤ length b'
    → view b es ≡ view b' es'
    → (take k b ≡ take k b') × (view (drop k b) es ≡ view (drop k b') es')
unfolding view
taken_same zero b b' es es' h h' e = (refl, e)
taken_same (suc k) [] b' es es' h h' e = absurd (omega arith)
taken_same (suc k) (x ∷ b) [] es es' h h' e = absurd (omega arith)
taken_same (suc k) (x ∷ b) (y ∷ b') es es' h h' e =
    let (p, q) = taken_same k b b' es es' (omega arith) (omega arith) (cc) in (cc, q)

taken-IsReal :
    (k : ℕ) (b : Bytes) (es : List Event) → All IsReal (view b es) → All IsReal (view (drop k b) es)
unfolding view
taken-IsReal zero b es h = h
taken-IsReal (suc k) [] es h = h
taken-IsReal (suc k) (x ∷ b) es h = taken-IsReal k b es h.1

taken-Same :
    (k : ℕ) (c d : Context)
    → Same c d
    → k ≤ length c.buff
    → k ≤ length d.buff
    → Same (record c { buff = drop k c.buff }) (record d { buff = drop k d.buff })
taken-Same k c d s h h' =
    read-Same c d _ _ c.incoming d.incoming s
      (taken_same k c.buff d.buff c.incoming d.incoming h h' s.items_same).1
      (taken-IsReal k c.buff c.incoming s.real)

-- An integer off buffers that hold it, and then something that relies on the rest of them.
take_uint-then :
    {B : Type 0} (w left j : ℕ) (f : ℕ → M B) (c d : Context)
    → Same c d
    → w + left ≤ length c.buff
    → w + left ≤ length d.buff
    → ((a : ℕ) (c' d' : Context)
        → Same c' d'
        → left ≤ length c'.buff
        → left ≤ length d'.buff
        → Agree j (available c') (f a c') (f a d'))
    → Agree (w + j) (available c) ((take_uint w >>= f) c) ((take_uint w >>= f) d)
unfolding take_uint read_uint_contents
take_uint-then w left j f c d s h h' next =
    let e : ltb (length c.buff) w ≡ false = ground arith in
    let e' : ltb (length d.buff) w ≡ false = ground arith in
    let t =
      taken_same w c.buff d.buff c.incoming d.incoming (omega arith) (omega arith) s.items_same in
    rw (e, e', t.0)
      (Agree-weaken j (w + j) _ (available c)
        (next _ _ _ (taken-Same w c d s (omega arith) (omega arith))
          (omega (arith, length-drop w c.buff)) (omega (arith, length-drop w d.buff)))
        (omega (arith, length-drop w c.buff)) (omega (arith, length-drop w c.buff)))

take_bytes-then :
    {B : Type 0} (n : ℕ) (f : Bytes → M B) (c d : Context)
    → Same c d
    → n ≤ length c.buff
    → n ≤ length d.buff
    → ((a : Bytes) → Steady (f a))
    → Agree 0 (available c) ((take_bytes n >>= f) c) ((take_bytes n >>= f) d)
unfolding take_bytes
take_bytes-then n f c d s h h' next =
    let e : ltb (length c.buff) n ≡ false = ground arith in
    let e' : ltb (length d.buff) n ≡ false = ground arith in
    let t = taken_same n c.buff d.buff c.incoming d.incoming h h' s.items_same in
    let l : (length (take n c.buff) == n) ≡ true = ground (arith, length-take n c.buff) in
    let l' : (length (take n d.buff) == n) ≡ true = ground (arith, length-take n d.buff) in
    rw (e, e', l, l', t.0)
      (Agree-weaken 0 0 _ (available c) (next _ _ _ (taken-Same n c d s h h'))
        (omega (arith, length-drop n c.buff)) (omega (arith, length-drop n c.buff)))

-- A wait for some bytes and a read of them.
pub awaited_bytes-Steady :
    {B : Type 0} (n : ℕ) (g : Error → Error) (f : Bytes → M B)
    → ((a : Bytes) → Steady (f a))
    → Steady (with_error g (await_bytes n) >> (take_bytes n >>= f))
awaited_bytes-Steady n g f next c d s =
    Awaits-then n 0 (available c) g (take_bytes n >>= f) (await_bytes-Awaits n c d s)
      (λ c' d' s' h h'. take_bytes-then n f c' d' s' h h' next)

pub read_ll-Takes : Takes 3 read_ll
unfolding read_ll
read_ll-Takes c d s =
    Awaits-then 3 3 (available c) _ _ (await_bytes-Awaits 3 c d s) λ c1 d1 s1 h1 k1.
      take_uint-then 1 2 2 _ c1 d1 s1 h1 k1 λ type c2 d2 s2 h2 k2.
        take_uint-then 2 0 0 _ c2 d2 s2 h2 k2 λ length c3 d3 s3 h3 k3.
          awaited_bytes-Steady length _ _ (λ a. pure-Steady (type, a)) c3 d3 s3

module _ (j : Json) where
  parsed-Steady : (b : Bool) (m : ℕ × Bytes) → Steady (parsed b m)
  unfolding parsed
  parsed-Steady true m = pure-Steady m
  parsed-Steady false m = fail-Steady json_processing_error

  text_of-Steady : (type : ℕ) (o : Option Bytes) → Steady (text_of type o)
  unfolding text_of
  text_of-Steady type none = fail-Steady json_processing_error
  text_of-Steady type (some s) = pure-Steady (type, s)

  pub read_json-Takes : Takes 3 (read_json j)
  unfolding read_json
  read_json-Takes = bind-Takes 3 read_ll _ read_ll-Takes (λ m. parsed-Steady (j.is_json m.1) m)

  pub read_msg-Takes : Takes 3 (read_msg j)
  unfolding read_msg
  read_msg-Takes =
      bind-Takes 3 (read_json j) _ read_json-Takes (λ m. text_of-Steady m.0 (j.msg_of m.1))
