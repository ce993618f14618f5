-- ===== src/Http/ResponseParser/Message.antt =====
-- A whole message through the parser, from `do_message_begin_` to `do_message_complete_`.
use libight.Prelude.{ℕ, ◌≡◌, ◌≢◌, refl, ◌∙◌, true, false, List, [], ◌∷◌, ◌++◌, map, arith, All}
use libight.Prelude.Bytes.{Bytes, beq, beq_iff}
use libight.Common.Error.{ok}
use libight.Http.ResponseParser.Parts.{
  Parted, whole_key, whole, concat, header_events, headers_events, give, run-append, run_status,
  run_bodies, hold, run_first, after, run_headers, push_header-after, after-client,
  after-field_text,
}
use libight.Http.ResponseParser.{
  Response, empty_response, nothing, Delegates, Parser, Event, message_begin, status,
  headers_complete, body, message_complete, last_header, do_headers_complete, do_message_begin,
  response_line, step, run,
}

-- What http_parser reports for a message: status text, headers and body in parts.
unfoldable pub message_events : List Bytes → List Parted → ℕ → ℕ → ℕ → List Bytes → List Event
message_events statuses headers major minor code bodies =
    (message_begin ∷ map status statuses)
    ++ (headers_events headers
        ++ (headers_complete major minor code ∷ (map body bodies ++ message_complete ∷ [])))

-- The response that a message is, written without the parser.
unfoldable pub response_of : List Bytes → List Parted → ℕ → ℕ → ℕ → Response
response_of statuses headers major minor code = record {
  response_line = response_line major minor code (concat statuses);
  http_major = major;
  http_minor = minor;
  status_code = code;
  reason = concat statuses;
  headers = map whole headers;
  body = [];
}

module _ {C : Type 0} (d : Delegates C) where
  -- The parser after `do_message_begin_` and the status text.
  begun : Parser C → List Bytes → Parser C
  begun p ss = record p {
    response = record empty_response { reason = concat ss };
    prev = nothing;
    field_text = [];
    value_text = [];
    client = d.begin_fn p.client;
  }

  run-begun :
      (p : Parser C) (ss : List Bytes) → run d p (message_begin ∷ map status ss) ≡ ok (begun p ss)
  unfolding run step begun do_message_begin empty_response
  run-begun p ss = run_status d (do_message_begin d p) ss

  -- The parser before `do_headers_complete_`.
  all_headers : Parser C → List Parted → Parser C
  all_headers p [] = p
  all_headers p (h ∷ hs) = after d (hold d p h) hs

  begun-prev : (p : Parser C) (ss : List Bytes) → (begun p ss).prev ≡ nothing
  unfolding begun
  begun-prev p ss = refl

  run-all_headers :
      (p : Parser C) (hs : List Parted)
      → p.prev ≡ nothing
      → run d p (headers_events hs) ≡ ok (all_headers p hs)
  unfolding run all_headers hold
  run-all_headers p [] e = refl
  run-all_headers p (h ∷ hs) e =
      run-append d p (header_events h) (headers_events hs)
      ∙ rw (run_first d p h e) (run_headers d (hold d p h) hs refl)

  last_header_lem :
      (p : Parser C) (ss : List Bytes) (hs : List Parted)
      → All (λ h. whole_key h ≢ []) hs
      → last_header (all_headers (begun p ss) hs)
        ≡ record empty_response { reason = concat ss; headers = map whole hs }
  unfolding last_header all_headers begun empty_response hold beq
  last_header_lem p ss [] a = refl
  last_header_lem p ss (h ∷ hs) a =
      let start : Parser C = hold d (begun p ss) h in
      let some_field : beq (after d start hs).field_text [] ≡ false =
        ground
          (arith, beq_iff (after d start hs).field_text [], after-field_text d start hs a.0 a.1) in
      rw some_field (push_header-after d start hs)

  all_headers-client : (p : Parser C) (hs : List Parted) → (all_headers p hs).client ≡ p.client
  unfolding all_headers hold
  all_headers-client p [] = refl
  all_headers-client p (h ∷ hs) = after-client d (hold d p h) hs

  -- The parser after `do_headers_complete_`.
  complete : Parser C → List Bytes → List Parted → ℕ → ℕ → ℕ → Parser C
  complete p ss hs major minor code =
      do_headers_complete d major minor code (all_headers (begun p ss) hs)

  complete-response :
      (p : Parser C) (ss : List Bytes) (hs : List Parted) (major minor code : ℕ)
      → All (λ h. whole_key h ≢ []) hs
      → ((complete p ss hs major minor code).response ≡ response_of ss hs major minor code)
        × ((complete p ss hs major minor code).client
            ≡ d.response_fn (response_of ss hs major minor code) (d.begin_fn p.client))
  unfolding complete do_headers_complete response_of begun empty_response
  complete-response p ss hs major minor code a =
      rw (last_header_lem p ss hs a, all_headers-client (begun p ss) hs) (refl, refl)

  finish : Parser C → List Bytes → Parser C
  finish p bs = record p { client = d.end_fn (give d p.client bs); paused = true }

  run-finish :
      (p : Parser C) (bs : List Bytes)
      → run d p (map body bs ++ message_complete ∷ []) ≡ ok (finish p bs)
  unfolding run step finish
  run-finish p bs =
      run-append d p (map body bs) (message_complete ∷ []) ∙ rw (run_bodies d p bs) refl

  run_from_begun :
      (p : Parser C) (ss : List Bytes) (hs : List Parted) (major minor code : ℕ) (bs : List Bytes)
      → run d p (message_events ss hs major minor code bs)
        ≡ ok (finish (complete p ss hs major minor code) bs)
  unfolding message_events run step complete
  run_from_begun p ss hs major minor code bs =
      let last = headers_complete major minor code ∷ (map body bs ++ message_complete ∷ []) in
      let rest = headers_events hs ++ last in
      run-append d p (message_begin ∷ map status ss) rest
      ∙ rw (run-begun p ss) (
          run-append d (begun p ss) (headers_events hs) last
          ∙ rw (run-all_headers (begun p ss) hs (begun-prev p ss))
              (run-finish (complete p ss hs major minor code) bs))

  -- Whatever the parser did before, and into whatever parts the network cuts a message whose
  -- header keys are not empty: the parser refuses none of the callbacks, its client gets the begin,
  -- one response with the whole texts and all the headers in order, the parts of the body in
  -- order, and the end, and then the parser is paused.
  pub run-message_events :
      (p : Parser C) (ss : List Bytes) (hs : List Parted) (major minor code : ℕ) (bs : List Bytes)
      → All (λ h. whole_key h ≢ []) hs
      → (q : Parser C) × (run d p (message_events ss hs major minor code bs) ≡ ok q)
        × (q.response ≡ response_of ss hs major minor code)
        × (q.client
            ≡ d.end_fn (
                give d
                  (d.response_fn (response_of ss hs major minor code) (d.begin_fn p.client))
                  bs))
        × (q.paused ≡ true)
  unfolding finish
  run-message_events p ss hs major minor code bs a =
      let (r, c) = complete-response p ss hs major minor code a in
      (
        finish (complete p ss hs major minor code) bs,
        run_from_begun p ss hs major minor code bs,
        r,
        rw c refl,
        refl,
      )
