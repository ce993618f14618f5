-- ===== src/Tests/HttpTests.antt =====
-- http/request.cpp and http/response_parser.hpp at a concrete response, in two reads.
use libight.Prelude.{
  ℕ, zero, suc, ◌≡◌, ◌≢◌, refl, true, false, List, [], ◌∷◌, ◌++◌, some, arith, All, length,
}
use libight.Prelude.Bytes.{Bytes, codes}
use libight.Common.Error.{ok, no_error}
use libight.Http.ResponseParser.{
  Parser, Event, message_begin, status, header_field, header_value, headers_complete, body,
  message_complete, run,
}
use libight.Http.ResponseParser.Parts.{Parted, whole_key, concat, give}
use libight.Http.ResponseParser.Message.{message_events, response_of, run-message_events}
use libight.Http.HttpParser.{HttpParser, hpe_ok}
use libight.Http.Receive.{Context, delegates, new_parser, replies, start}
use libight.Http.Receive.Chunks.{events_of}
use libight.Http.Receive.Whole.{flat, reads_of, start-message}

abbrev location : Parted
location = record {
  key = codes "Loc";
  keys = codes "ation" ∷ [];
  value = codes "/a";
  values = codes "/b" ∷ [];
}

abbrev headers : List Parted
headers = location ∷ []

abbrev statuses : List Bytes
statuses = codes "O" ∷ codes "K" ∷ []

abbrev bodies : List Bytes
bodies = codes "1" ∷ codes "23" ∷ []

location-key : All (λ k. whole_key k ≢ []) headers
location-key = ((λ e. cc), tt)

-- The callbacks of the first and of the second chunk.
abbrev callbacks : ℕ → List Event
callbacks zero =
    message_begin ∷ status (codes "O") ∷ status (codes "K") ∷ header_field (codes "Loc") ∷ []
callbacks (suc n) =
    header_field (codes "ation")
    ∷ header_value (codes "/a")
    ∷ header_value (codes "/b")
    ∷ headers_complete 1 1 200
    ∷ body (codes "1")
    ∷ body (codes "23")
    ∷ message_complete
    ∷ []

abbrev by_count : HttpParser
by_count = record {
  S = ℕ;
  init = 0;
  execute = λ n chunk. (suc n, callbacks n, length chunk, hpe_ok);
}

abbrev two_reads : List (List Bytes)
two_reads = (codes "HTTP/1.1 200 OK\r\nLoc" ∷ []) ∷ (codes "ation: /a/b\r\n\r\n123" ∷ []) ∷ []

taken :
    events_of by_count 0 (flat two_reads) ≡ some (2, message_events statuses headers 1 1 200 bodies)
unfolding events_of message_events
taken = refl

start-message_example :
    start by_count (ok false) (reads_of two_reads ++ [])
    ≡ replies no_error (record (response_of statuses headers 1 1 200) { body = concat bodies })
start-message_example =
    start-message by_count false two_reads [] 2 statuses headers 1 1 200 bodies
      (omega arith, (omega arith, tt)) location-key taken

run-message_events_example :
    (q : Parser Context) × (run
        (delegates false)
        new_parser
        (message_events statuses headers 1 1 200 bodies)
      ≡ ok q)
    × (q.response ≡ response_of statuses headers 1 1 200)
    × (q.client
        ≡ (delegates false).end_fn (
            give
              (delegates false)
              ((delegates false).response_fn
                (response_of statuses headers 1 1 200)
                ((delegates false).begin_fn new_parser.client))
              bodies))
    × (q.paused ≡ true)
run-message_events_example =
    run-message_events (delegates false) new_parser statuses headers 1 1 200 bodies location-key
