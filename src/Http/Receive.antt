-- ===== src/Http/Receive.antt =====
-- `request_recv_response` of http/request.cpp: read from the transport until the response is whole.
pub mod Chunks
pub mod End
pub mod Whole
use libight.Prelude.{
  ℕ, ◌+◌, ◌≡◌, refl, Bool, true, false, not, ◌&&◌, List, [], ◌∷◌, ◌++◌, Option, none, some, ltb,
  ◌==◌, if◌then◌else◌, length,
}
use libight.Prelude.Bytes.{Bytes}
use libight.Common.Error.{Error, ErrorOr, ok, err, no_error, value_error, same_code}
use libight.Net.Errors.{eof_error}
use libight.Http.ResponseParser.{Response, empty_response, nothing, Delegates, Parser}
use libight.Http.HttpParser.{HttpParser, parse, parser_execute}

-- What the registered functions change in `RequestRecvResponse`.
pub record Context : Type 0 where
  pub response : Response
  pub valid_response : Bool
  pub reached_end : Bool

-- The functions that `request_recv_response_start` registers; none for the begin, and none for
-- the body if it is ignored.
unfoldable pub delegates : Bool → Delegates Context
delegates ignore_body = record {
  begin_fn = λ c. c;
  response_fn = λ r c. record c { response = r; valid_response = true };
  body_fn = λ s c.
      if ignore_body
      then c
      else record c { response = record c.response { body = c.response.body ++ s } };
  end_fn = λ c. record c { reached_end = true };
}

unfoldable pub new_parser : Parser Context
unfolding empty_response
new_parser = record {
  response = empty_response;
  prev = nothing;
  field_text = [];
  value_text = [];
  paused = false;
  client = record { response = empty_response; valid_response = false; reached_end = false };
}

-- What a read gives: its error, and the chunks that are in `buff`.
abbrev pub Read : Type 0
Read = Error × List Bytes

-- The callback's arguments, or the state in which the loop waits for the next read.
pub data Outcome (S : Type 0) : Type 0 where
  waits : S → Parser Context → Outcome S
  replies : Error → Response → Outcome S

abbrev pub buffered : List Bytes → ℕ
buffered [] = 0
buffered (c ∷ cs) = length c + buffered cs

module _ (h : HttpParser) (ignore_body : Bool) where
  unfoldable pub feed_read : h.S → Parser Context → Read → h.S × Parser Context × Error
  feed_read s p (e, chunks) =
      if same_code e no_error && ltb 0 (buffered chunks)
      then (let (s', p', thrown) = parse h (delegates ignore_body) s p chunks in
          (s', p', elim thrown [ none ↦ e | some second_error ↦ second_error ]))
      else (s, p, e)

  unfoldable pub finish_read : h.S → Parser Context → Error → Outcome h.S
  finish_read s p e =
      if same_code e no_error && not p.client.reached_end
      then waits s p
      else if same_code e eof_error && p.client.valid_response
      then (let (s', p', thrown) = parser_execute h (delegates ignore_body) s p [] in
          replies (elim thrown [ none ↦ no_error | some second_error ↦ second_error ])
            p'.client.response)
      else replies e p.client.response

  -- The callback of `net::read` in `request_recv_response_loop`.
  unfoldable pub on_read : h.S → Parser Context → Read → Outcome h.S
  on_read s p r = let t = feed_read s p r in finish_read t.0 t.1 t.2

  abbrev pub unless_replied : Outcome h.S → (h.S → Parser Context → Outcome h.S) → Outcome h.S
  unless_replied (waits s p) k = k s p
  unless_replied (replies e x) k = replies e x

  -- `request_recv_response_loop` on the reads to come.
  unfoldable pub loop : h.S → Parser Context → List Read → Outcome h.S
  loop s p [] = waits s p
  loop s p (r ∷ rs) = unless_replied (on_read s p r) (λ s' p'. loop s' p' rs)

-- `request_recv_response_start`, given what the setting "http/ignore_body" is.
unfoldable pub start : (h : HttpParser) → ErrorOr Bool → List Read → Outcome h.S
unfolding empty_response
start h (err e) rs = replies value_error empty_response
start h (ok ignore_body) rs = loop h ignore_body h.init new_parser rs
