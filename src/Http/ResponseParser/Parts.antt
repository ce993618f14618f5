-- ===== src/Http/ResponseParser/Parts.antt =====
-- The parser puts a message together again, however the network cuts its texts into parts.
use libight.Prelude.{◌≡◌, ◌≢◌, refl, sym, ap, ◌∙◌, List, [], ◌∷◌, ◌++◌, map, All}
use libight.Prelude.Bytes.{Bytes}
use mathlib.Core.List.{append_assoc, append-nil}
use libight.Common.Error.{ErrorOr, ok, err, ◌>>=◌}
use libight.Http.Headers.{Header, header, headers_push_back}
use libight.Http.ResponseParser.{
  HeaderParserState, nothing, field, value, Delegates, Parser, Event, status, header_field,
  header_value, body, push_header, header_case, do_header_internal, step, run,
}

-- A header whose key and value came in parts, each with at least one part.
pub record Parted : Type 0 where
  pub key : Bytes
  pub keys : List Bytes
  pub value : Bytes
  pub values : List Bytes

pub ok_inj : {A : Type 0} {a b : A} → ok a ≡ ok b → a ≡ b
ok_inj e = cc

abbrev pub concat : List Bytes → Bytes
concat [] = []
concat (x ∷ xs) = x ++ concat xs

abbrev pub whole_key : Parted → Bytes
whole_key h = h.key ++ concat h.keys

abbrev pub whole : Parted → Header
whole h = header (whole_key h) (h.value ++ concat h.values)

abbrev pub header_events : Parted → List Event
header_events h =
    header_field h.key ∷ map header_field h.keys ++ header_value h.value ∷ map header_value h.values

abbrev pub headers_events : List Parted → List Event
headers_events [] = []
headers_events (h ∷ hs) = header_events h ++ headers_events hs

module _ {C : Type 0} (d : Delegates C) where
  -- The client's state after `body_fn` got these parts.
  unfoldable pub give : C → List Bytes → C
  give c [] = c
  give c (b ∷ bs) = give (d.body_fn b c) bs

  pub run-append :
      (p : Parser C) (xs ys : List Event) → run d p (xs ++ ys) ≡ (run d p xs >>= λ q. run d q ys)
  unfolding run
  run-append p [] ys = refl
  run-append p (x ∷ xs) ys = bind (step d p x) (λ q. run-append q xs ys)
    where
      bind :
          (r : ErrorOr (Parser C))
          → ((q : Parser C) → run d q (xs ++ ys) ≡ (run d q xs >>= λ q'. run d q' ys))
          → (r >>= λ q. run d q (xs ++ ys)) ≡ ((r >>= λ q. run d q xs) >>= λ q. run d q ys)
      bind (ok q) h = h q
      bind (err e) h = refl

  pub run_status :
      (p : Parser C) (ss : List Bytes)
      → run d p (map status ss)
        ≡ ok (record p { response = record p.response { reason = p.response.reason ++ concat ss } })
  unfolding run step
  run_status p [] = rw append-nil refl
  run_status p (s ∷ ss) = rw (← append_assoc p.response.reason s (concat ss)) (
      run_status (record p { response = record p.response { reason = p.response.reason ++ s } }) ss)

  run_keys :
      (p : Parser C) (ss : List Bytes)
      → p.prev ≡ field
      → run d p (map header_field ss) ≡ ok (record p { field_text = p.field_text ++ concat ss })
  unfolding run step
  run_keys p [] h = rw append-nil refl
  run_keys p (s ∷ ss) h =
      rw (h, ← append_assoc p.field_text s (concat ss))
        (run_keys (record p { field_text = p.field_text ++ s; prev = field }) ss refl)

  run_values :
      (p : Parser C) (ss : List Bytes)
      → p.prev ≡ value
      → run d p (map header_value ss) ≡ ok (record p { value_text = p.value_text ++ concat ss })
  unfolding run step
  run_values p [] h = rw append-nil refl
  run_values p (s ∷ ss) h =
      rw (h, ← append_assoc p.value_text s (concat ss))
        (run_values (record p { value_text = p.value_text ++ s; prev = value }) ss refl)

  pub run_bodies :
      (p : Parser C) (bs : List Bytes)
      → run d p (map body bs) ≡ ok (record p { client = give p.client bs })
  unfolding run step give
  run_bodies p [] = refl
  run_bodies p (b ∷ bs) = run_bodies (record p { client = d.body_fn b p.client }) bs

  -- The parser holds this header, complete, and has not pushed it yet.
  unfoldable pub hold : Parser C → Parted → Parser C
  hold p h = record p {
    field_text = whole_key h;
    value_text = h.value ++ concat h.values;
    prev = value;
  }

  -- From `FIELD` with the key's first part on.
  run_rest :
      (p : Parser C) (h : Parted)
      → p.prev ≡ field
      → p.field_text ≡ h.key
      → run d p (map header_field h.keys ++ header_value h.value ∷ map header_value h.values)
        ≡ ok (hold p h)
  unfolding run step hold
  run_rest p h e k =
      run-append p (map header_field h.keys) (header_value h.value ∷ map header_value h.values)
      ∙ rw (run_keys p h.keys e, e)
          (rw k (
            run_values
              (record p { field_text = h.key ++ concat h.keys; value_text = h.value; prev = value })
              h.values refl))

  pub run_first :
      (p : Parser C) (h : Parted) → p.prev ≡ nothing → run d p (header_events h) ≡ ok (hold p h)
  unfolding run step hold
  run_first p h e = rw e (run_rest (record p { field_text = h.key; prev = field }) h refl refl)

  run_next :
      (p : Parser C) (h : Parted)
      → p.prev ≡ value
      → run d p (header_events h) ≡ ok (hold (record p { response = push_header p }) h)
  unfolding run step hold
  run_next p h e = rw e (
      run_rest (record p { response = push_header p; field_text = h.key; prev = field }) h refl
        refl)

  -- After the headers that follow one that is held.
  pub after : Parser C → List Parted → Parser C
  after p [] = p
  after p (h ∷ hs) = after (hold (record p { response = push_header p }) h) hs

  pub run_headers :
      (p : Parser C) (hs : List Parted)
      → p.prev ≡ value
      → run d p (headers_events hs) ≡ ok (after p hs)
  unfolding run after hold
  run_headers p [] e = refl
  run_headers p (h ∷ hs) e =
      run-append p (header_events h) (headers_events hs)
      ∙ rw (run_next p h e) (run_headers (hold (record p { response = push_header p }) h) hs refl)

  pub push_header-after :
      (p : Parser C) (hs : List Parted)
      → push_header (after p hs) ≡ record p.response {
        headers = p.response.headers ++ header p.field_text p.value_text ∷ map whole hs;
      }
  unfolding after hold push_header headers_push_back
  push_header-after p [] = refl
  push_header-after p (h ∷ hs) =
      push_header-after (hold (record p { response = push_header p }) h) hs
      ∙ rw
          (append_assoc p.response.headers (header p.field_text p.value_text ∷ [])
            (whole h ∷ map whole hs))
          refl

  pub after-client : (p : Parser C) (hs : List Parted) → (after p hs).client ≡ p.client
  unfolding after hold
  after-client p [] = refl
  after-client p (h ∷ hs) = after-client (hold (record p { response = push_header p }) h) hs

  pub after-field_text :
      (p : Parser C) (hs : List Parted)
      → p.field_text ≢ []
      → All (λ h. whole_key h ≢ []) hs
      → (after p hs).field_text ≢ []
  unfolding after hold
  after-field_text p [] n a = n
  after-field_text p (h ∷ hs) n a =
      after-field_text (hold (record p { response = push_header p }) h) hs a.0 a.1

module _ {C : Type 0} where
  header_case-client :
      (a b : HeaderParserState) (s : Bytes) (p m : Parser C)
      → header_case a b s p ≡ ok m
      → m.client ≡ p.client
  unfolding header_case
  header_case-client nothing field s p m h = cc
  header_case-client nothing nothing s p m h = absurd (cc)
  header_case-client nothing value s p m h = absurd (cc)
  header_case-client value field s p m h = cc
  header_case-client value nothing s p m h = absurd (cc)
  header_case-client value value s p m h = cc
  header_case-client field field s p m h = cc
  header_case-client field nothing s p m h = absurd (cc)
  header_case-client field value s p m h = cc

  -- A part of a header changes nothing of the client.
  pub do_header_internal-client :
      (cur : HeaderParserState) (s : Bytes) (p m : Parser C)
      → do_header_internal cur s p ≡ ok m
      → m.client ≡ p.client
  unfolding do_header_internal
  do_header_internal-client cur s p m h =
      bound (header_case p.prev cur s p) (λ q. header_case-client p.prev cur s p q) h
    where
      bound :
          (r : ErrorOr (Parser C))
          → ((q : Parser C) → r ≡ ok q → q.client ≡ p.client)
          → (r >>= λ q. ok (record q { prev = cur })) ≡ ok m
          → m.client ≡ p.client
      bound (ok q) k e = ap (λ z. z.client) (sym (ok_inj e)) ∙ k q refl
      bound (err z) k e = absurd (cc)
