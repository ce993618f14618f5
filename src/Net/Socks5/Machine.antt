-- ===== src/Net/Socks5/Machine.antt =====
-- `Socks5::socks5_connect_`: the handshake as a machine that the proxy's data drives.
-- An event is a call of an `emit_` method; `closes` says whether the connect handler calls `close`.
use libight.Prelude.{
  Bool, true, false, not, ◌&&◌, ◌||◌, List, [], ◌∷◌, ◌++◌, ltb, if◌then◌else◌, length,
}
use libight.Prelude.Bytes.{Bytes}
use libight.Prelude.Int.{ℤ}
use libight.Common.Error.{Error, ErrorOr, ok, err}
use libight.Net.Socks5.{
  format_auth_request, parse_auth_response, format_connect_request, parse_connect_response,
}

-- Which handler `conn->on_data` has.
pub data Phase : Type 0 where
  auth reply connected : Phase

pub data Event : Type 0 where
  connect : Event
  data_event : Bytes → Event
  error_event : Error → Event

pub record Config : Type 0 where
  pub signed : Bool
  pub closes : Bool
  pub address : Bytes
  pub port : ℤ

pub record Socks5 : Type 0 where
  pub phase : Phase
  pub buffer : Bytes
  pub isclosed : Bool
  -- what was written to `conn`
  pub written : Bytes
  pub events : List Event

-- The constructor, which sends the authentication methods.
abbrev pub start : Socks5
start = record {
  phase = auth;
  buffer = [];
  isclosed = false;
  written = format_auth_request;
  events = [];
}

abbrev pub emit : Socks5 → Event → Socks5
emit s e = record s { events = s.events ++ e ∷ [] }

send_request : Socks5 → ErrorOr Bytes → Socks5
send_request s (err e) = emit s (error_event e)
send_request s (ok out) = record s { written = s.written ++ out; phase = reply }

-- The first handler.
on_auth : Config → Socks5 → ErrorOr Bool × Bytes → Socks5
unfolding send_request
on_auth c s (err e, rest) = emit (record s { buffer = rest }) (error_event e)
on_auth c s (ok false, rest) = record s { buffer = rest }
on_auth c s (ok true, rest) =
    send_request (record s { buffer = rest }) (format_connect_request c.address c.port)

-- After `emit_connect`: data that came with the reply goes up, unless the handler closed. The event
-- shares its bytes with `buffer`, which no later handler reads.
become_connected : Config → Socks5 → Socks5
become_connected c s =
    let t = emit (record s { phase = connected; isclosed = s.isclosed || c.closes }) connect in
    if not t.isclosed && ltb 0 (length t.buffer) then emit t (data_event t.buffer) else t

-- The second handler.
on_reply : Config → Socks5 → ErrorOr Bool × Bytes → Socks5
unfolding become_connected
on_reply c s (err e, rest) = emit (record s { buffer = rest }) (error_event e)
on_reply c s (ok false, rest) = record s { buffer = rest }
on_reply c s (ok true, rest) = become_connected c (record s { buffer = rest })

on_data_in : Phase → Config → Socks5 → Bytes → Socks5
unfolding on_auth on_reply
on_data_in auth c s d = on_auth c s (parse_auth_response (s.buffer ++ d))
on_data_in reply c s d = on_reply c s (parse_connect_response c.signed (s.buffer ++ d))
on_data_in connected c s d = emit s (data_event d)

unfoldable pub on_data : Config → Socks5 → Bytes → Socks5
unfolding on_data_in
on_data c s d = on_data_in s.phase c s d

unfoldable pub on_all : Config → Socks5 → List Bytes → Socks5
on_all c s [] = s
on_all c s (d ∷ ds) = on_all c (on_data c s d) ds
