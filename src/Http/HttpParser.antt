-- ===== src/Http/HttpParser.antt =====
-- http_parser, a vendored library, as a parameter, and the calls `ResponseParserNg` makes of it.
use libight.Prelude.{ℕ, List, [], ◌∷◌, Option, none, some, ◌==◌, if◌then◌else◌, length}
use libight.Prelude.Bytes.{Bytes}
use libight.Common.Error.{Error, ok, err, no_error}
use libight.Http.Errors.{
  parser_invalid_eof_state_error, parser_header_overflow_error, parser_closed_connection_error,
  parser_invalid_version_error, parser_invalid_status_error, parser_invalid_method_error,
  parser_invalid_url_error, parser_invalid_host_error, parser_invalid_port_error,
  parser_invalid_path_error, parser_invalid_query_string_error, parser_invalid_fragment_error,
  parser_lf_expected_error, parser_invalid_header_token_error, parser_invalid_content_length_error,
  parser_unexpected_content_length_error, parser_invalid_chunk_size_error,
  parser_invalid_constant_error, parser_invalid_internal_state_error,
  parser_strict_mode_assertion_error, parser_paused_error, generic_parser_error,
}
use libight.Http.ResponseParser.{Delegates, Parser, Event, step}

-- `enum http_errno`, the values that the code names. `hpe_other` stands for all others.
pub data HttpErrno : Type 0 where
  hpe_ok hpe_invalid_eof_state hpe_header_overflow hpe_closed_connection hpe_invalid_version
        hpe_invalid_status hpe_invalid_method hpe_invalid_url hpe_invalid_host hpe_invalid_port
        hpe_invalid_path hpe_invalid_query_string hpe_invalid_fragment hpe_lf_expected
        hpe_invalid_header_token hpe_invalid_content_length hpe_unexpected_content_length
        hpe_invalid_chunk_size hpe_invalid_constant hpe_invalid_internal_state hpe_strict hpe_paused
        hpe_other :
      HttpErrno

-- `http_parser_execute` on a chunk: the callbacks it makes, how many bytes it took, its error.
pub record HttpParser : Type 1 where
  pub S : Type 0
  pub init : S
  pub execute : S → Bytes → S × List Event × ℕ × HttpErrno

unfoldable pub map_parser_error : HttpErrno → Error
map_parser_error hpe_ok = no_error
map_parser_error hpe_invalid_eof_state = parser_invalid_eof_state_error
map_parser_error hpe_header_overflow = parser_header_overflow_error
map_parser_error hpe_closed_connection = parser_closed_connection_error
map_parser_error hpe_invalid_version = parser_invalid_version_error
map_parser_error hpe_invalid_status = parser_invalid_status_error
map_parser_error hpe_invalid_method = parser_invalid_method_error
map_parser_error hpe_invalid_url = parser_invalid_url_error
map_parser_error hpe_invalid_host = parser_invalid_host_error
map_parser_error hpe_invalid_port = parser_invalid_port_error
map_parser_error hpe_invalid_path = parser_invalid_path_error
map_parser_error hpe_invalid_query_string = parser_invalid_query_string_error
map_parser_error hpe_invalid_fragment = parser_invalid_fragment_error
map_parser_error hpe_lf_expected = parser_lf_expected_error
map_parser_error hpe_invalid_header_token = parser_invalid_header_token_error
map_parser_error hpe_invalid_content_length = parser_invalid_content_length_error
map_parser_error hpe_unexpected_content_length = parser_unexpected_content_length_error
map_parser_error hpe_invalid_chunk_size = parser_invalid_chunk_size_error
map_parser_error hpe_invalid_constant = parser_invalid_constant_error
map_parser_error hpe_invalid_internal_state = parser_invalid_internal_state_error
map_parser_error hpe_strict = parser_strict_mode_assertion_error
map_parser_error hpe_paused = parser_paused_error
map_parser_error hpe_other = generic_parser_error

module _ {C : Type 0} (d : Delegates C) where
  -- The callbacks in order, until one throws.
  unfoldable pub run_events : Parser C → List Event → Parser C × Option Error
  run_events p [] = (p, none)
  run_events p (x ∷ xs) = elim (step d p x) [ ok q ↦ run_events q xs | err e ↦ (p, some e) ]

module _ (h : HttpParser) {C : Type 0} (d : Delegates C) where
  -- `parser_execute`; a result with an error is a throw.
  unfoldable pub parser_execute : h.S → Parser C → Bytes → h.S × Parser C × Option Error
  unfolding run_events map_parser_error
  parser_execute s p chunk =
      let (s', events, x, errno) = h.execute s chunk in
      let (p', thrown) = run_events d p events in
      (
        s',
        p',
        elim thrown [
          | some e ↦ some e
          | none ↦ if x == length chunk then none else some (map_parser_error errno)
        ],
      )

  abbrev pub unless_thrown :
      h.S × Parser C × Option Error
      → (h.S → Parser C → h.S × Parser C × Option Error)
      → h.S × Parser C × Option Error
  unless_thrown (s, p, some e) k = (s, p, some e)
  unless_thrown (s, p, none) k = k s p

  -- `parse` on the chunks of `buffer_`: all of them are then discarded, unless one throws.
  unfoldable pub parse : h.S → Parser C → List Bytes → h.S × Parser C × Option Error
  parse s p [] = (s, p, none)
  parse s p (c ∷ cs) = unless_thrown (parser_execute s p c) (λ s' p'. parse s' p' cs)
