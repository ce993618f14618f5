-- ===== src/Http/Receive/Chunks.antt =====
-- The chunks of the reads, the callbacks http_parser makes on them, and what these change.
use libight.Prelude.{
  ◌≡◌, refl, sym, ap, ◌∙◌, List, [], ◌∷◌, ◌++◌, Option, none, some, arith, ◌==◌, ==_refl,
  if◌then◌else◌, length, some_inj,
}
use libight.Prelude.Bytes.{Bytes}
use mathlib.Core.List.{append_assoc}
use libight.Common.Error.{ErrorOr, ok, err, ◌>>=◌}
use libight.Http.ResponseParser.{Delegates, Parser, Event, step, run}
use libight.Http.ResponseParser.Parts.{run-append, ok_inj}
use libight.Http.HttpParser.{HttpParser, run_events, parser_execute, parse}

abbrev pub prepend : {S : Type 0} → List Event → Option (S × List Event) → Option (S × List Event)
prepend es none = none
prepend es (some (s, fs)) = some (s, es ++ fs)

-- The callbacks http_parser makes on these chunks, where it takes each of them entirely.
unfoldable pub events_of : (h : HttpParser) → h.S → List Bytes → Option (h.S × List Event)
events_of h s [] = some (s, [])
events_of h s (c ∷ cs) =
    let (s', es, x, errno) = h.execute s c in
    if x == length c then prepend es (events_of h s' cs) else none

prepend_inv :
    {S : Type 0} (es gs : List Event) (o : Option (S × List Event)) (t : S)
    → prepend es o ≡ some (t, gs)
    → (fs : List Event) × (o ≡ some (t, fs)) × (gs ≡ es ++ fs)
prepend_inv es gs none t h = absurd (cc)
prepend_inv es gs (some (s, fs)) t h = let e = some_inj h in (fs, cc, sym (ap (λ z. z.1) e))

-- The events of the first chunk, and of the others.
events_of_first :
    (h : HttpParser) (s t : h.S) (c : Bytes) (cs : List Bytes) (es : List Event)
    → events_of h s (c ∷ cs) ≡ some (t, es)
    → ((h.execute s c).2 ≡ length c)
      × (fs : List Event) × (events_of h (h.execute s c).0 cs ≡ some (t, fs))
      × (es ≡ (h.execute s c).1 ++ fs)
unfolding events_of
events_of_first h s t c cs es o =
    let taken : (h.execute s c).2 ≡ length c = ground (arith, o) in
    let rest : prepend (h.execute s c).1 (events_of h (h.execute s c).0 cs) ≡ some (t, es) =
      rw (taken, ==_refl (length c)) at o in
    let (fs, e, k) = prepend_inv (h.execute s c).1 es (events_of h (h.execute s c).0 cs) t rest in
    (taken, fs, e, k)

module _ {C : Type 0} (d : Delegates C) where
  -- A run over two lists of events passes through a state between them.
  pub run_between :
      (p q : Parser C) (xs ys : List Event)
      → run d p (xs ++ ys) ≡ ok q
      → (m : Parser C) × (run d p xs ≡ ok m) × (run d m ys ≡ ok q)
  run_between p q xs ys h = between (run d p xs) refl (sym (run-append d p xs ys) ∙ h)
    where
      between :
          (r : ErrorOr (Parser C))
          → run d p xs ≡ r
          → (r >>= λ m. run d m ys) ≡ ok q
          → (m : Parser C) × (run d p xs ≡ ok m) × (run d m ys ≡ ok q)
      between (ok m) e k = (m, e, k)
      between (err x) e k = absurd (cc)

  run_events_lem :
      (p q : Parser C) (xs : List Event) → run d p xs ≡ ok q → run_events d p xs ≡ (q, none)
  unfolding run run_events
  run_events_lem p q [] e = cc
  run_events_lem p q (x ∷ xs) e = next_event (step d p x) refl e (λ m. run_events_lem m q xs)
    where
      next_event :
          (r : ErrorOr (Parser C))
          → step d p x ≡ r
          → (r >>= λ m. run d m xs) ≡ ok q
          → ((m : Parser C) → run d m xs ≡ ok q → run_events d m xs ≡ (q, none))
          → run_events d p (x ∷ xs) ≡ (q, none)
      next_event (ok m) k h rest = rw (k, run_events) (rest m h)
      next_event (err z) k h rest = absurd (cc)

  execute_lem :
      (h : HttpParser) (s : h.S) (c : Bytes) (p m : Parser C)
      → (h.execute s c).2 ≡ length c
      → run d p (h.execute s c).1 ≡ ok m
      → parser_execute h d s p c ≡ ((h.execute s c).0, m, none)
  unfolding parser_execute
  execute_lem h s c p m taken r =
      rw (run_events_lem p m (h.execute s c).1 r, taken, ==_refl (length c)) refl

  -- Where http_parser takes all the chunks, `parse` throws nothing if the callbacks do not.
  pub parse_lem :
      (h : HttpParser) (s t : h.S) (cs : List Bytes) (es : List Event) (p q : Parser C)
      → events_of h s cs ≡ some (t, es)
      → run d p es ≡ ok q
      → parse h d s p cs ≡ (t, q, none)
  unfolding events_of parse run
  parse_lem h s t [] es p q o r =
      let none_left : es ≡ [] = cc in let same : p ≡ q = (let k = rw none_left at r in cc) in cc
  parse_lem h s t (c ∷ cs) es p q o r =
      let (taken, fs, o', e) = events_of_first h s t c cs es o in
      let (m, r1, r2) = run_between p q (h.execute s c).1 fs (rw e at r) in
      rw (execute_lem h s c p m taken r1) (parse_lem h (h.execute s c).0 t cs fs m q o' r2)

-- The callbacks on one read's chunks, and on those of the reads that follow.
pub events_of_append :
    (h : HttpParser) (s t : h.S) (cs ds : List Bytes) (es : List Event)
    → events_of h s (cs ++ ds) ≡ some (t, es)
    → (u : h.S) × (xs : List Event) × (ys : List Event) × (events_of h s cs ≡ some (u, xs))
      × (events_of h u ds ≡ some (t, ys))
      × (es ≡ xs ++ ys)
unfolding events_of
events_of_append h s t [] ds es o = (s, [], es, refl, o, refl)
events_of_append h s t (c ∷ cs) ds es o =
    let (taken, fs, o', e) = events_of_first h s t c (cs ++ ds) es o in
    let (u, xs, ys, a, b, k) = events_of_append h (h.execute s c).0 t cs ds fs o' in
    (
      u,
      (h.execute s c).1 ++ xs,
      ys,
      rw (taken, ==_refl (length c), a) refl,
      b,
      rw (e, k) (sym (append_assoc (h.execute s c).1 xs ys)),
    )

pub run_nil : {C : Type 0} (d : Delegates C) (p q : Parser C) → run d p [] ≡ ok q → p ≡ q
unfolding run
run_nil d p q r = ok_inj r
