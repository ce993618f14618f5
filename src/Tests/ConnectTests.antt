-- ===== src/Tests/ConnectTests.antt =====
-- net/connect.cpp at concrete inputs.
use libight.Prelude.{◌≡◌, refl, ℕ, zero, suc, true, false, not, ◌&&◌, ◌||◌, [], ◌∷◌, some, ◌+◌}
use libight.Prelude.Bytes.{Bytes, codes}
use libight.Prelude.Int.{pos}
use libight.Common.Error.{no_error, Error, ok, is_error, timeout_error}
use libight.Net.Connect.{
  Settings, Tls, connect_logic, connect_many, connect_many_from, on_connected,
}
use libight.Net.Connect.Attempts.{Reported, connect_logic_lem}
use libight.Net.Connect.Ownership.{is_none, IsSettled, on_connected_lem}

-- The first attempt times out and the second succeeds.
attempt : ℕ → Bytes → Error
attempt zero a = timeout_error
attempt (suc index) a = no_error

connect_logic_lem_example :
    Reported attempt no_error
      (codes "10.0.0.1" ∷ codes "10.0.0.2" ∷ [])
      (connect_logic attempt no_error (codes "10.0.0.1" ∷ codes "10.0.0.2" ∷ []))
connect_logic_lem_example =
    connect_logic_lem attempt no_error (codes "10.0.0.1") (codes "10.0.0.2" ∷ [])

abbrev with_tls : Settings
with_tls = record {
  dumb_transport = false;
  socks5_proxy = false;
  ssl = true;
  ca_bundle_path = some (codes "ca.pem");
  allow_ssl23 = ok false;
  allow_dirty_shutdown = ok false;
}

abbrev bad_handshake : Tls
bad_handshake = record {
  client_ssl_error = no_error;
  validation_error = no_error;
  filter_made = true;
  handshake_error = timeout_error;
}

on_connected_lem_example :
    IsSettled
      (not (is_error no_error || with_tls.ssl && is_none with_tls.ca_bundle_path))
      (on_connected with_tls bad_handshake no_error)
on_connected_lem_example = on_connected_lem with_tls bad_handshake tt no_error

-- The second of three connections fails.
second_fails : ℕ → Error × ℕ
second_fails zero = (no_error, 0)
second_fails (suc index) = (timeout_error, index + 1)

two_connections : connect_many second_fails (pos 3) ≡ (timeout_error, 0 ∷ 1 ∷ [])
unfolding connect_many connect_many_from second_fails
two_connections = refl
