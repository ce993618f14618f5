-- ===== src/Http/ResponseParser.antt =====
-- `ResponseParserNg` of http/response_parser.hpp: what it does at each callback of http_parser.
-- http_parser cuts each text into parts as the network does; a callback gets one part.
-- The functions registered by `on_begin`, `on_response`, `on_body` and `on_end` change a state of
-- the client, `C`; `Delegates` holds them.
pub mod Parts
pub mod Message
use libight.Prelude.{ℕ, ◌≡◌, ◌≢◌, refl, Bool, true, false, not, List, [], ◌∷◌, ◌++◌, if◌then◌else◌}
use libight.Prelude.Bytes.{Bytes, codes, beq}
use libight.Prelude.Decimal.{to_string}
use libight.Common.Error.{ErrorOr, ok, err, ◌>>=◌}
use libight.Http.Errors.{header_parser_internal_error}
use libight.Http.Headers.{Header, headers_push_back}

-- `Response`, but for its pointers to the request and to the previous response.
pub record Response : Type 0 where
  pub response_line : Bytes
  pub http_major : ℕ
  pub http_minor : ℕ
  pub status_code : ℕ
  pub reason : Bytes
  pub headers : List Header
  pub body : Bytes

unfoldable pub empty_response : Response
empty_response = record {
  response_line = [];
  http_major = 0;
  http_minor = 0;
  status_code = 0;
  reason = [];
  headers = [];
  body = [];
}

-- `HeaderParserState`
pub data HeaderParserState : Type 0 where
  nothing field value : HeaderParserState

pub record Delegates (C : Type 0) : Type 0 where
  pub begin_fn : C → C
  pub response_fn : Response → C → C
  pub body_fn : Bytes → C → C
  pub end_fn : C → C

-- The fields used during parsing, whether the parser is paused, and the client's state.
pub record Parser (C : Type 0) : Type 0 where
  pub response : Response
  pub prev : HeaderParserState
  pub field_text : Bytes
  pub value_text : Bytes
  pub paused : Bool
  pub client : C

-- The callbacks of http_parser. `headers_complete` carries what `parser_` then holds: the major
-- version, the minor version and the status code.
pub data Event : Type 0 where
  message_begin : Event
  status : Bytes → Event
  header_field : Bytes → Event
  header_value : Bytes → Event
  headers_complete : ℕ → ℕ → ℕ → Event
  body : Bytes → Event
  message_complete : Event

pub response_line : ℕ → ℕ → ℕ → Bytes → Bytes
response_line major minor code reason =
    codes "HTTP/"
    ++ to_string major
    ++ codes "."
    ++ to_string minor
    ++ codes " "
    ++ to_string code
    ++ codes " "
    ++ reason

module _ {C : Type 0} where
  pub push_header : Parser C → Response
  push_header p = record p.response {
    headers = headers_push_back p.response.headers p.field_text p.value_text;
  }

  -- The chain of tests on `prev_` and `cur`.
  header_case : HeaderParserState → HeaderParserState → Bytes → Parser C → ErrorOr (Parser C)
  unfolding push_header
  header_case nothing field s p = ok (record p { field_text = s })
  header_case value field s p = ok (record p { response = push_header p; field_text = s })
  header_case field field s p = ok (record p { field_text = p.field_text ++ s })
  header_case field value s p = ok (record p { value_text = s })
  header_case value value s p = ok (record p { value_text = p.value_text ++ s })
  header_case _ _ s p = err header_parser_internal_error

  pub do_header_internal : HeaderParserState → Bytes → Parser C → ErrorOr (Parser C)
  unfolding header_case
  do_header_internal cur s p = header_case p.prev cur s p >>= λ q. ok (record q { prev = cur })

  pub do_message_begin : Delegates C → Parser C → Parser C
  do_message_begin d p = record p {
    response = empty_response;
    prev = nothing;
    field_text = [];
    value_text = [];
    client = d.begin_fn p.client;
  }

  -- "Also copy last header"
  pub last_header : Parser C → Response
  unfolding push_header
  last_header p = if not (beq p.field_text []) then push_header p else p.response

  pub do_headers_complete : Delegates C → ℕ → ℕ → ℕ → Parser C → Parser C
  unfolding response_line last_header
  do_headers_complete d major minor code p =
      let r = record (last_header p) {
        http_major = major;
        status_code = code;
        http_minor = minor;
        response_line = response_line major minor code (last_header p).reason;
      } in
      record p { response = r; client = d.response_fn r p.client }

  -- What the callback for an event does. `http_parser_pause` sets `paused`.
  unfoldable pub step : Delegates C → Parser C → Event → ErrorOr (Parser C)
  unfolding do_message_begin do_header_internal do_headers_complete
  step d p message_begin = ok (do_message_begin d p)
  step d p (status s) =
      ok (record p { response = record p.response { reason = p.response.reason ++ s } })
  step d p (header_field s) = do_header_internal field s p
  step d p (header_value s) = do_header_internal value s p
  step d p (headers_complete major minor code) = ok (do_headers_complete d major minor code p)
  step d p (body s) = ok (record p { client = d.body_fn s p.client })
  step d p message_complete = ok (record p { client = d.end_fn p.client; paused = true })

  unfoldable pub run : Delegates C → Parser C → List Event → ErrorOr (Parser C)
  run d p [] = ok p
  run d p (x ∷ xs) = step d p x >>= λ q. run d q xs
