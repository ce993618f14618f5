-- ===== src/Lib.antt =====
-- Verification of Measurement Kit, the C++ library under src/libmeasurement_kit.
--
-- The program measures networks. Its parts call each other with continuations: an operation takes a
-- callback that is called later, from the event loop. What these files model of it:
--
-- - common/: Common/Error is `Error` and `ErrorOr` (error.hpp, error_or.hpp); an error code is a
--   number and `ErrorOr` a sum. Common/Text is `startswith`, `endswith` and `split` (utils.cpp,
--   utils.hpp). Common/Worker is the job queue with its threads (worker.cpp): each critical section
--   is one step, and a callback is a number, or nothing where the `std::function` is empty.
--   Common/Scalar converts text to integers (scalar.hpp). Common/Parallel is `parallel`
--   (parallel.hpp): a step is a round of its loop or a continuation that calls back; every order is
--   modelled.
-- - net/: Net/Buffer is `Buffer` (buffer.cpp, buffer.hpp) over libevent's evbuffer, a parameter whose
--   laws are those that libevent documents (Net/Buffer/Libevent); what a buffer holds is one byte
--   string (Net/Buffer/Contents), and the clients use that. Net/Socks5 is the SOCKSv5 client
--   (socks5.cpp): its messages, and the handlers as a machine that the proxy's data drives.
--   Net/Address is the address and endpoint helpers (utils.cpp). Net/Connect is connect.cpp: trying the
--   addresses that were resolved one after another, the steps of TLS, and who owns what is connected.
--   Net/Transport is `readn` and `read` (transport.cpp) on the events that arrive; Net/Emitter is
--   `EmitterBase` (emitter.hpp, emitter.cpp), the handlers of a transport.
-- - http/: Http/ResponseParser is what `ResponseParserNg` (response_parser.hpp) does at each callback
--   of http_parser, Http/HttpParser how it feeds chunks to it, and Http/Receive the loop that reads
--   a response (request.cpp). Http/Url is parse_url.cpp. Http/Request, Http/Redirect and Http/Cookies
--   are making a request, following redirects and the cookies sent along (request.cpp).
-- - report/: Report/BaseReporter, Report/FileReporter and Report/OoniReporter are the reporters; each
--   operation is split at its continuation, and others may come in between.
-- - ooni/: Ooni/WebConnectivity is the comparison of an experiment with the control and the blocking
--   decision (web_connectivity.cpp). The JSON entry is a record of the keys that are read and written.
--   Ooni/Collector is the client of the collector (collector_client.cpp, collector_client_impl.hpp):
--   an operation is what its chain of callbacks does until the last one.
-- - ndt/: Ndt/Context is `Context` (internal.hpp) with what the connection gives, and computations over
--   it: a chain of callbacks is what it does until its last one. Ndt/Messages is the framing
--   (messages_impl.hpp, messages.cpp), Ndt/Protocol the phases (protocol_impl.hpp), Ndt/Subtests the
--   tests (test_meta_impl.hpp, test_c2s_impl.hpp, test_s2c_impl.hpp) and Ndt/Run the run
--   (run_impl.hpp). Ndt/Cutting is about how what arrives is cut.
-- - neubot/: Neubot/Dash is the video test (dash_impl.hpp, dash.cpp), with the rates and settings in the
--   file and the loops in Neubot/Dash/Run; what is received keeps the keys that the theorems need.
-- - nettests/: what `Runnable` (runnable.cpp) does around a measurement. Nettests/Bouncer asks the
--   bouncer for the collector and the helpers, Nettests/Geoip looks up the location, Nettests/Inputs
--   reads the inputs (utils_impl.hpp), and Nettests/Measurements takes one input after another in
--   runs that go on side by side, each step up to its callback being one step of the model.
--
-- Prelude holds what these share: Boolean tests, lists, byte strings, searching, decimal numbers.
-- Tests holds concrete runs.
--
-- State is passed as records. An operation that throws something else than an `Error` returns `none`,
-- or `faults` where its outcomes are a data type.
-- Text is a list of bytes. Numbers are natural numbers; where the width matters the wrap is written
-- out (`unsigned short` in the worker, `size_t` and `char` in the SOCKS parser).
-- Loops that are not structural run on fuel: `split` on one more than the length of the text, since a
-- round takes a byte away; `request` on one more than the redirects that are left;
-- the loops over NDT messages on one more than the bytes that can still arrive; `to_string` on one
-- more than the number. Each is enough, since every round uses one unit. The loops of the video test
-- recurse on the rounds that are left: 513 negotiations, and as many chunks as "max_iteration" says.
--
-- Third-party code is a parameter: libevent's buffers, http_parser (vendored), `inet_pton`, the
-- regular expressions, shuffling, files, the TLS library, the location databases, the division of
-- floats, the measured times and speeds, and the JSON library.
--
-- Not modelled: logging, the event loop and sockets, TLS, DNS queries, the JSON library, the
-- bouncer's documents and orchestration, the JSON entry of a measurement, the measuring of NDT,
-- mlabns, and the other measurements. They are bindings to libraries, or are left for later.
pub mod Prelude
pub mod Common
pub mod Net
pub mod Http
pub mod Ndt
pub mod Neubot
pub mod Nettests
pub mod Report
pub mod Ooni
pub mod Tests
