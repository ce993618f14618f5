-- ===== src/Net/Connect.antt =====
-- net/connect.cpp and `connect_many_impl` of net/connect_impl.hpp. How an attempt to connect goes,
-- the resolver and the TLS library are parameters.
pub mod Attempts
pub mod Ownership
use libight.Prelude.{
  ℕ, zero, suc, ◌+◌, Bool, true, false, not, ◌&&◌, List, [], ◌∷◌, ◌++◌, Option, none, some,
  if◌then◌else◌, ltb,
}
use libight.Prelude.Bytes.{Bytes}
use libight.Prelude.Int.{ℤ, pos, negsuc}
use libight.Common.Error.{
  Error, ErrorOr, ok, err, is_error, no_error, generic_error, value_error, add_child_error,
}
use libight.Net.Errors.{dns_generic_error, connect_failed_error, missing_ca_bundle_path_error}

-- `connect_first_of` from an index on: the attempt for an index and an address gives its error. The
-- result is the errors of all attempts and the address that is connected.
unfoldable pub connect_first_of :
    (ℕ → Bytes → Error) → ℕ → List Bytes → List Error → List Error × Option Bytes
connect_first_of attempt index [] errors = (errors, none)
connect_first_of attempt index (address ∷ rest) errors =
    let failure = attempt index address in
    let again = connect_first_of attempt (index + 1) rest (errors ++ failure ∷ []) in
    if is_error failure then again else (errors ++ failure ∷ [], some address)

abbrev pub add_child_errors : Error → List Error → Error
add_child_errors e [] = e
add_child_errors e (c ∷ cs) = add_child_errors (add_child_error e c) cs

-- What is reported when no attempt succeeded.
unfoldable pub all_failed : List Error → Error
all_failed (e ∷ []) = e
all_failed es = add_child_errors connect_failed_error es

-- The callback of `connect_first_of`; `nagle` is the error of `disable_nagle`.
unfoldable pub first_of_done : Error → List Error × Option Bytes → Error × Option Bytes
first_of_done nagle (es, none) = (all_failed es, none)
first_of_done nagle (es, some address) = (add_child_errors nagle es, some address)

-- `connect_logic`, on the addresses that the resolver gives.
unfoldable pub connect_logic : (ℕ → Bytes → Error) → Error → List Bytes → Error × Option Bytes
connect_logic attempt nagle [] = (dns_generic_error, none)
connect_logic attempt nagle (a ∷ addresses) =
    first_of_done nagle (connect_first_of attempt 0 (a ∷ addresses) [])

-- `connect_many_impl`: the error, and the transports of all connections that were tried.
unfoldable pub connect_many_from : {T : Type 0} → (ℕ → Error × T) → ℕ → ℕ → List T → Error × List T
connect_many_from net_connect index zero connections = (no_error, connections)
connect_many_from net_connect index (suc left) connections =
    let (failure, txp) = net_connect index in
    let again = connect_many_from net_connect (index + 1) left (connections ++ txp ∷ []) in
    if is_error failure then (failure, connections ++ txp ∷ []) else again

unfoldable pub connect_many : {T : Type 0} → (ℕ → Error × T) → ℤ → Error × List T
connect_many net_connect (pos num) = connect_many_from net_connect 0 num []
connect_many net_connect (negsuc n) = (no_error, [])

-- The settings that `connect` reads, but for the timeout.
pub record Settings : Type 0 where
  pub dumb_transport : Bool
  pub socks5_proxy : Bool
  pub ssl : Bool
  pub ca_bundle_path : Option Bytes
  pub allow_ssl23 : ErrorOr Bool
  pub allow_dirty_shutdown : ErrorOr Bool

-- What the TLS library does: an error of `get_client_ssl` or of the host name validation, whether
-- the filter is made, and the error of the handshake.
pub record Tls : Type 0 where
  pub client_ssl_error : Error
  pub validation_error : Error
  pub filter_made : Bool
  pub handshake_error : Error

-- A dumb emitter, a SOCKS5 connection, or a transport that owns the connected bufferevent.
pub data Transport : Type 0 where
  emitter socks5 libevent_emitter ssl_emitter : Transport

-- What `connect` gives to its callback, and whether the connected bufferevent was freed.
pub record Connected : Type 0 where
  pub failure : Error
  pub transport : Transport
  pub freed : Bool

abbrev refused : Error → Bool → Connected
refused e freed = record { failure = e; transport = emitter; freed = freed }

-- The callback of `connect_ssl`, when the handshake is done.
unfoldable pub handshaken : ErrorOr Bool → Connected
handshaken (err e) = refused e true
handshaken (ok allow) = record { failure = no_error; transport = ssl_emitter; freed = false }

unfoldable pub connect_ssl : Settings → Tls → Connected
connect_ssl o tls =
    if not tls.filter_made
    then refused generic_error true
    else if is_error tls.handshake_error
    then refused tls.handshake_error true
    else handshaken o.allow_dirty_shutdown

unfoldable pub validated : Settings → Tls → ErrorOr Bool → Connected
validated o tls (err e) = refused value_error true
validated o tls (ok allow_ssl23) =
    if is_error tls.validation_error then refused tls.validation_error true else connect_ssl o tls

unfoldable pub with_ca_bundle : Settings → Tls → Option Bytes → Connected
with_ca_bundle o tls none = refused missing_ca_bundle_path_error false
with_ca_bundle o tls (some path) =
    if is_error tls.client_ssl_error
    then refused tls.client_ssl_error true
    else validated o tls o.allow_ssl23

-- The callback of `connect_logic`.
unfoldable pub on_connected : Settings → Tls → Error → Connected
on_connected o tls failure =
    if is_error failure
    then refused failure false
    else if o.ssl
    then with_ca_bundle o tls o.ca_bundle_path
    else record { failure = failure; transport = libevent_emitter; freed = false }

-- The connection over a proxy is net/socks5.cpp; its error is a parameter here.
unfoldable pub connect : Settings → Tls → Error → Error × Option Bytes → Connected
connect o tls proxied (failure, address) =
    if o.dumb_transport
    then refused no_error false
    else if o.socks5_proxy
    then record { failure = proxied; transport = socks5; freed = false }
    else on_connected o tls failure
