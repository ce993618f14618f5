-- ===== src/Http/Receive/End.antt =====
-- The end of a message among the callbacks: only it ends the loop.
use libight.Prelude.{
  ℕ, ◌≡◌, ◌≢◌, refl, sym, ap, ◌∙◌, ◌⊎◌, inl, inr, Bool, true, false, List, [], ◌∷◌, ◌++◌, map,
  arith, All,
}
use libight.Prelude.Bytes.{Bytes}
use libight.Common.Error.{ErrorOr, ok, err, ◌>>=◌}
use libight.Http.ResponseParser.{
  field, value, Parser, Event, message_begin, status, header_field, header_value, headers_complete,
  body, message_complete, step, run,
}
use libight.Http.ResponseParser.Parts.{
  Parted, header_events, headers_events, ok_inj, do_header_internal-client,
}
use libight.Http.ResponseParser.Message.{message_events}
use libight.Http.Receive.{Context, delegates}
use libight.Http.Receive.Chunks.{run_between}

-- Whether a list of callbacks ends in the only `on_message_complete` it has.
unfoldable pub ends : List Event → Bool
ends [] = false
ends (message_complete ∷ []) = true
ends (message_complete ∷ xs) = false
ends (x ∷ xs) = ends xs

module _ (ignore_body : Bool) where
  -- Only `on_message_complete` sets `reached_end`.
  step-reached_end :
      (p m : Parser Context) (x : Event)
      → step (delegates ignore_body) p x ≡ ok m
      → (m.client.reached_end ≡ p.client.reached_end) ⊎ (x ≡ message_complete)
  unfolding step delegates
  step-reached_end p m message_begin h = inl (ap (λ z. z.client.reached_end) (sym (ok_inj h)))
  step-reached_end p m (status s) h = inl (ap (λ z. z.client.reached_end) (sym (ok_inj h)))
  step-reached_end p m (header_field s) h =
      inl (ap (λ c. c.reached_end) (do_header_internal-client field s p m h))
  step-reached_end p m (header_value s) h =
      inl (ap (λ c. c.reached_end) (do_header_internal-client value s p m h))
  step-reached_end p m (headers_complete a b c) h =
      inl (ap (λ z. z.client.reached_end) (sym (ok_inj h)))
  step-reached_end p m (body s) h = inl (ground (arith, ap (λ z. z.client.reached_end) (ok_inj h)))
  step-reached_end p m message_complete h = inr refl

ends_next :
    (x : Event) (xs : List Event)
    → ends (x ∷ xs) ≡ true
    → ((x ≡ message_complete) × (xs ≡ [])) ⊎ ((x ≢ message_complete) × (ends xs ≡ true))
unfolding ends
ends_next message_complete [] h = inl (refl, refl)
ends_next message_complete (y ∷ xs) h = absurd (cc)
ends_next message_begin xs h = inr (λ e. cc, h)
ends_next (status s) xs h = inr (λ e. cc, h)
ends_next (header_field s) xs h = inr (λ e. cc, h)
ends_next (header_value s) xs h = inr (λ e. cc, h)
ends_next (headers_complete a b c) xs h = inr (λ e. cc, h)
ends_next (body s) xs h = inr (λ e. cc, h)

append_nil-left : {A : Type 0} (xs ys : List A) → xs ++ ys ≡ [] → (xs ≡ []) × (ys ≡ [])
append_nil-left [] ys h = (refl, h)
append_nil-left (x ∷ xs) ys h = absurd (cc)

module _ (ignore_body : Bool) where
  end_sets :
      (p m : Parser Context)
      → step (delegates ignore_body) p message_complete ≡ ok m
      → m.client.reached_end ≡ true
  unfolding step delegates
  end_sets p m h = ap (λ z. z.client.reached_end) (sym (ok_inj h))

  kept :
      (p q : Parser Context) (x : Event)
      → step (delegates ignore_body) p x ≡ ok q
      → p.client.reached_end ≡ false
      → x ≢ message_complete
      → q.client.reached_end ≡ false
  kept p q x r f n = elim (step-reached_end ignore_body p q x r) [
    | inl k ↦ k ∙ f
    | inr c ↦ absurd (n c)
  ]

  -- Part of the callbacks: either it had the last one, and sets `reached_end`, or it did not.
  pub run-reached_end :
      (p m : Parser Context) (xs ys : List Event)
      → run (delegates ignore_body) p xs ≡ ok m
      → p.client.reached_end ≡ false
      → ends (xs ++ ys) ≡ true
      → ((m.client.reached_end ≡ true) × (ys ≡ []))
        ⊎ ((m.client.reached_end ≡ false) × (ends ys ≡ true))
  unfolding run
  run-reached_end p m [] ys r f e = inr (ap (λ z. z.client.reached_end) (sym (ok_inj r)) ∙ f, e)
  run-reached_end p m (x ∷ xs) ys r f e =
      let (q, r1, r2) = run_between (delegates ignore_body) p m (x ∷ []) xs r in
      let stepped : step (delegates ignore_body) p x ≡ ok q =
        single (step (delegates ignore_body) p x) q r1 in
      elim (ends_next x (xs ++ ys) e) [
        | inl (c, z) ↦
            let (z1, z2) = append_nil-left xs ys z in
            let same : q ≡ m = ok_inj (rw z1 at r2) in
            let set : q.client.reached_end ≡ true = end_sets p q (rw c at stepped) in
            inl (ap (λ z. z.client.reached_end) (sym same) ∙ set, z2)
        | inr (n, e') ↦ run-reached_end q m xs ys r2 (kept p q x stepped f n) e'
      ]
    where
      single :
          (s : ErrorOr (Parser Context)) (q : Parser Context)
          → (s >>= λ z. run (delegates ignore_body) z []) ≡ ok q
          → s ≡ ok q
      single (ok z) q h = h
      single (err z) q h = absurd (cc)

ends-append : (xs ys : List Event) → All (λ x. x ≢ message_complete) xs → ends (xs ++ ys) ≡ ends ys
unfolding ends
ends-append [] ys a = refl
ends-append (message_complete ∷ xs) ys a = absurd (a.0 refl)
ends-append (message_begin ∷ xs) ys a = ends-append xs ys a.1
ends-append (status s ∷ xs) ys a = ends-append xs ys a.1
ends-append (header_field s ∷ xs) ys a = ends-append xs ys a.1
ends-append (header_value s ∷ xs) ys a = ends-append xs ys a.1
ends-append (headers_complete b c d ∷ xs) ys a = ends-append xs ys a.1
ends-append (body s ∷ xs) ys a = ends-append xs ys a.1

abbrev IsInner : List Event → Type 0
IsInner xs = All (λ x. x ≢ message_complete) xs

map-IsInner :
    (f : Bytes → Event) (bs : List Bytes)
    → ((b : Bytes) → f b ≢ message_complete)
    → IsInner (map f bs)
map-IsInner f [] n = tt
map-IsInner f (b ∷ bs) n = (n b, map-IsInner f bs n)

append-IsInner : (xs ys : List Event) → IsInner xs → IsInner ys → IsInner (xs ++ ys)
append-IsInner [] ys a b = b
append-IsInner (x ∷ xs) ys a b = (a.0, append-IsInner xs ys a.1 b)

headers_events-IsInner : (hs : List Parted) → IsInner (headers_events hs)
headers_events-IsInner [] = tt
headers_events-IsInner (h ∷ hs) =
    append-IsInner (header_events h) (headers_events hs)
      (
        λ e. cc,
        append-IsInner (map header_field h.keys) (header_value h.value ∷ map header_value h.values)
            (map-IsInner header_field h.keys (λ b e. cc))
            (λ e. cc, map-IsInner header_value h.values (λ b e. cc)),
      )
      (headers_events-IsInner hs)

pub ends-message_events :
    (ss : List Bytes) (hs : List Parted) (major minor code : ℕ) (bs : List Bytes)
    → ends (message_events ss hs major minor code bs) ≡ true
unfolding message_events ends
ends-message_events ss hs major minor code bs =
    let last = map body bs ++ message_complete ∷ [] in
    let rest = headers_events hs ++ (headers_complete major minor code ∷ last) in
    ends-append (map status ss) rest (map-IsInner status ss (λ b e. cc))
    ∙ ends-append (headers_events hs) (headers_complete major minor code ∷ last)
        (headers_events-IsInner hs)
    ∙ ends-append (map body bs) (message_complete ∷ []) (map-IsInner body bs (λ b e. cc))
