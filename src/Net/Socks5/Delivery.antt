-- ===== src/Net/Socks5/Delivery.antt =====
-- What the SOCKSv5 client delivers, however the proxy cuts its data.
use libight.Prelude.{◌≡◌, ◌≢◌, List, [], ◌∷◌, ◌++◌, ◌⊎◌}
use libight.Prelude.Bytes.{Bytes}
use libight.Net.Socks5.{format_auth_request}
use libight.Net.Socks5.Machine.{reply, connected, Socks5, start}
use libight.Net.Socks5.Reply.{delivered}

-- The proxy accepts the method without authentication.
abbrev pub auth_ok : Bytes
auth_ok = 5 ∷ 0 ∷ []

-- The client asked for the connection and waits for the reply, with what came after the method.
abbrev pub asked : Bytes → Bytes → Socks5
asked out buffer = record start {
  phase = reply;
  buffer = buffer;
  written = format_auth_request ++ out;
}

-- What the client has of the proxy's choice of a method, before the last byte of it.
abbrev choosing : Bytes → Socks5
choosing buffer = record start { buffer = buffer }

-- The last piece has the end of the proxy's choice of a method and all that comes after it.
abbrev pub IsTogether : List Bytes → Bytes → Type 0
IsTogether ds w =
    (before : List Bytes) × (y d : Bytes) × (ds ≡ before ++ d ∷ []) × (y ≢ []) × (d ≡ y ++ w)

-- The client is connected and has handed out what follows the reply; or the last piece has the end of
-- the method and the whole reply, and the client waits with all that came after the method.
abbrev pub Outcome : Bytes → Bytes → Bytes → List Bytes → Socks5 → Type 0
Outcome out r rest ds s =
    ((s.phase ≡ connected) × (delivered s.events ≡ rest))
    ⊎ (IsTogether ds (r ++ rest) × (s ≡ asked out (r ++ rest)))
