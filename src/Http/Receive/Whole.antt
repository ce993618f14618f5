-- ===== src/Http/Receive/Whole.antt =====
-- A response that arrives in any number of reads is handed over whole, with no error.
use libight.Prelude.{
  ℕ, ◌<◌, ◌≡◌, ◌≢◌, refl, sym, ap, ◌∙◌, inl, inr, Bool, true, false, List, [], ◌∷◌, ◌++◌, some,
  arith, lt→ltb, if◌then◌else◌, All, some_inj,
}
use libight.Prelude.Bytes.{Bytes}
use mathlib.Core.List.{append_assoc, append-nil}
use libight.Common.Error.{ok, no_error}
use libight.Http.ResponseParser.{Response, Parser, Event, run}
use libight.Http.ResponseParser.Parts.{Parted, whole_key, concat, give}
use libight.Http.ResponseParser.Message.{message_events, response_of, run-message_events}
use libight.Http.HttpParser.{HttpParser}
use libight.Http.Receive.{
  Context, delegates, new_parser, Read, waits, replies, buffered, feed_read, finish_read, on_read,
  loop, start,
}
use libight.Http.Receive.Chunks.{events_of, run_between, parse_lem, events_of_append, run_nil}
use libight.Http.Receive.End.{ends, run-reached_end, ends-message_events}

nothing_ends :
    (h : HttpParser) (s t : h.S) (es : List Event)
    → events_of h s [] ≡ some (t, es)
    → ends es ≢ true
unfolding events_of ends
nothing_ends h s t es o e =
    let none_left : es ≡ [] = ap (λ z. z.1) (sym (some_inj o)) in let bad = rw none_left at e in cc

abbrev pub flat : List (List Bytes) → List Bytes
flat [] = []
flat (cs ∷ css) = cs ++ flat css

abbrev pub reads_of : List (List Bytes) → List Read
reads_of [] = []
reads_of (cs ∷ css) = (no_error, cs) ∷ reads_of css

module _ (h : HttpParser) (ignore_body : Bool) where
  feed_read_lem :
      (s u : h.S) (p m : Parser Context) (cs : List Bytes) (xs : List Event)
      → 0 < buffered cs
      → events_of h s cs ≡ some (u, xs)
      → run (delegates ignore_body) p xs ≡ ok m
      → feed_read h ignore_body s p (no_error, cs) ≡ (u, m, no_error)
  unfolding feed_read
  feed_read_lem s u p m cs xs n o r =
      rw (lt→ltb 0 (buffered cs) n, parse_lem (delegates ignore_body) h s u cs xs p m o r) refl

  finish_read_lem :
      (u : h.S) (m : Parser Context)
      → finish_read h ignore_body u m no_error
        ≡ (if m.client.reached_end then replies no_error m.client.response else waits u m)
  unfolding finish_read
  finish_read_lem u m = ground arith

  on_read_lem :
      (s u : h.S) (p m : Parser Context) (cs : List Bytes) (xs : List Event)
      → 0 < buffered cs
      → events_of h s cs ≡ some (u, xs)
      → run (delegates ignore_body) p xs ≡ ok m
      → on_read h ignore_body s p (no_error, cs)
        ≡ (if m.client.reached_end then replies no_error m.client.response else waits u m)
  unfolding on_read
  on_read_lem s u p m cs xs n o r = rw (feed_read_lem s u p m cs xs n o r) (finish_read_lem u m)

  -- The reads carry the chunks of a list of callbacks that ends in the only end of a message.
  loop_lem :
      (css : List (List Bytes)) (more : List Read) (s t : h.S) (p q : Parser Context)
      (es : List Event)
      → All (λ cs. 0 < buffered cs) css
      → events_of h s (flat css) ≡ some (t, es)
      → run (delegates ignore_body) p es ≡ ok q
      → p.client.reached_end ≡ false
      → ends es ≡ true
      → loop h ignore_body s p (reads_of css ++ more) ≡ replies no_error q.client.response
  unfolding loop
  loop_lem [] more s t p q es a o r f e = absurd (nothing_ends h s t es o e)
  loop_lem (cs ∷ css) more s t p q es a o r f e =
      let (u, xs, ys, o1, o2, k) = events_of_append h s t cs (flat css) es o in
      let (m, r1, r2) = run_between (delegates ignore_body) p q xs ys (rw k at r) in
      let read = on_read_lem s u p m cs xs a.0 o1 r1 in
      elim (run-reached_end ignore_body p m xs ys r1 f (rw k at e)) [
        | inl (reached, z) ↦
            let same : m ≡ q = run_nil (delegates ignore_body) m q (rw z at r2) in
            rw (read, reached) (ap (λ x. replies no_error x.client.response) same)
        | inr (unreached, e') ↦
            rw (read, unreached) (loop_lem css more u t m q ys a.1 o2 r2 unreached e')
      ]

-- The client's response after the parts of the body.
give-response :
    (ignore_body : Bool) (c : Context) (bs : List Bytes)
    → (give (delegates ignore_body) c bs).response ≡ record c.response {
      body = if ignore_body then c.response.body else c.response.body ++ concat bs;
    }
unfolding give delegates
give-response true c [] = refl
give-response false c [] = rw append-nil refl
give-response true c (b ∷ bs) = give-response true c bs
give-response false c (b ∷ bs) =
    give-response false (record c { response = record c.response { body = c.response.body ++ b } })
      bs
    ∙ rw (append_assoc c.response.body b (concat bs)) refl

new_parser-client :
    (new_parser.client.valid_response ≡ false) × (new_parser.client.reached_end ≡ false)
unfolding new_parser
new_parser-client = (refl, refl)

delivered :
    (ignore_body : Bool) (r : Response) (bs : List Bytes) (q : Parser Context)
    → r.body ≡ []
    → q.client
      ≡ (delegates ignore_body).end_fn (
          give
            (delegates ignore_body)
            ((delegates ignore_body).response_fn r
              ((delegates ignore_body).begin_fn new_parser.client))
            bs)
    → q.client.response ≡ record r { body = if ignore_body then [] else concat bs }
unfolding delegates
delivered ignore_body r bs q e c =
    let given : Context = record {
      response = r;
      valid_response = true;
      reached_end = new_parser.client.reached_end;
    } in
    ap (λ x. x.response) c ∙ give-response ignore_body given bs ∙ rw e refl

-- However the network cuts a response into reads, and each read into chunks: where http_parser
-- takes every chunk entirely and reports a message whose header keys are not empty, the callback
-- gets no error and the response with all of its headers in order and its whole body, or with an
-- empty body where "http/ignore_body" is set. Reads that come later do not matter.
pub start-message :
    (h : HttpParser) (ignore_body : Bool) (css : List (List Bytes)) (more : List Read) (t : h.S)
    (ss : List Bytes) (hs : List Parted) (major minor code : ℕ) (bs : List Bytes)
    → All (λ cs. 0 < buffered cs) css
    → All (λ k. whole_key k ≢ []) hs
    → events_of h h.init (flat css) ≡ some (t, message_events ss hs major minor code bs)
    → start h (ok ignore_body) (reads_of css ++ more)
      ≡ replies no_error (record (response_of ss hs major minor code) {
        body = if ignore_body then [] else concat bs;
      })
unfolding start response_of
start-message h ignore_body css more t ss hs major minor code bs a k o =
    let d = delegates ignore_body in
    let (q, r, e, c, z) = run-message_events d new_parser ss hs major minor code bs k in
    let ended = ends-message_events ss hs major minor code bs in
    loop_lem h ignore_body css more h.init t new_parser q (message_events ss hs major minor code bs)
      a o r new_parser-client.1 ended
    ∙ ap (replies no_error) (delivered ignore_body (response_of ss hs major minor code) bs q refl c)
