-- ===== src/Net/Connect/Ownership.antt =====
-- Who owns the connected bufferevent when `connect` calls back.
use libight.Prelude.{◌≡◌, refl, Bool, true, false, not, ◌&&◌, ◌||◌, Option, none, some, arith}
use libight.Prelude.Bytes.{Bytes}
use libight.Common.Error.{Error, ErrorOr, ok, err, is_error}
use libight.Net.Connect.{
  Settings, Tls, Transport, emitter, socks5, libevent_emitter, ssl_emitter, Connected, handshaken,
  connect_ssl, validated, with_ca_bundle, on_connected,
}

-- Whether the transport owns the bufferevent.
abbrev pub owns : Transport → Bool
owns emitter = false
owns socks5 = false
owns libevent_emitter = true
owns ssl_emitter = true

abbrev pub is_none : Option Bytes → Bool
is_none none = true
is_none (some path) = false

-- A setting that cannot be converted gives a real error.
abbrev pub IsReal : ErrorOr Bool → Type 0
IsReal (ok b) = Unit
IsReal (err e) = is_error e ≡ true

-- The transport owns the bufferevent just when no error is reported, and it was freed just when one
-- is, if `cleans`.
abbrev pub IsSettled : Bool → Connected → Type 0
IsSettled cleans c =
    (owns c.transport ≡ not (is_error c.failure)) × (c.freed ≡ (is_error c.failure && cleans))

handshaken-IsSettled : (r : ErrorOr Bool) → IsReal r → IsSettled true (handshaken r)
unfolding handshaken
handshaken-IsSettled (err e) h = ground arith
handshaken-IsSettled (ok b) h = (refl, refl)

module _ (o : Settings) (tls : Tls) (h : IsReal o.allow_dirty_shutdown) where
  connect_ssl-IsSettled : IsSettled true (connect_ssl o tls)
  unfolding connect_ssl
  connect_ssl-IsSettled = ground (arith, handshaken-IsSettled o.allow_dirty_shutdown h)

  validated-IsSettled : (r : ErrorOr Bool) → IsSettled true (validated o tls r)
  unfolding validated
  validated-IsSettled (err e) = (refl, refl)
  validated-IsSettled (ok b) = ground (arith, connect_ssl-IsSettled)

  with_ca_bundle-IsSettled :
      (p : Option Bytes) → IsSettled (not (is_none p)) (with_ca_bundle o tls p)
  unfolding with_ca_bundle
  with_ca_bundle-IsSettled none = (refl, refl)
  with_ca_bundle-IsSettled (some path) = ground (arith, validated-IsSettled o.allow_ssl23)

  -- A bufferevent that is connected is owned by the transport just when no error is reported, and
  -- freed just when an error is, but for two errors: where disabling Nagle's algorithm failed, and
  -- where TLS is asked for without a path of certificates, it is neither.
  pub on_connected_lem :
      (nagle : Error)
      → IsSettled
          (not (is_error nagle || o.ssl && is_none o.ca_bundle_path))
          (on_connected o tls nagle)
  unfolding on_connected
  on_connected_lem nagle = ground (arith, with_ca_bundle-IsSettled o.ca_bundle_path)
