-- ===== src/Net/Address/RoundTrip.antt =====
-- Endpoints are parsed back, wherever http_parser finds the parts where they were written.
use libight.Prelude.{
  ℕ, ◌≡◌, refl, inl, inr, true, [], ◌∷◌, ◌++◌, none, some, arith, if◌then◌else◌, length,
  length-append, drop-append, take-append, Bool-cases,
}
use libight.Prelude.Bytes.{Bytes}
use libight.Common.Error.{ok, err, value_error}
use libight.Prelude.Decimal.{to_string}
use libight.Net.Address.{
  UrlFields, Libraries, substr, Endpoint, is_ipv6_addr, parse_endpoint_internal,
  serialize_address_port, parse_endpoint, serialize_endpoint,
}

-- The part behind a prefix is found at the length of the prefix.
pub substr-append : (xs ys zs : Bytes) → substr (xs ++ (ys ++ zs)) (length xs, length ys) ≡ some ys
substr-append xs ys zs =
    ground (arith, length-append xs (ys ++ zs), drop-append xs (ys ++ zs), take-append ys zs)

module _ (lib : Libraries) where
  abbrev pub bracket : Bytes → ℕ
  bracket s = if is_ipv6_addr lib s then 1 else 0

  -- Where an endpoint's parts are in its text.
  abbrev pub endpoint_layout : Endpoint → UrlFields
  endpoint_layout e = record {
    schema = none;
    host = some (bracket e.hostname, length e.hostname);
    port = some e.port;
    path = none;
    query = none;
  }

  found :
      (e : Endpoint)
      → lib.parse_fields true (serialize_endpoint lib e) ≡ some (endpoint_layout e)
      → parse_endpoint_internal lib (serialize_endpoint lib e) ≡ some (ok e)
  unfolding parse_endpoint_internal serialize_endpoint serialize_address_port
  found e h = elim (Bool-cases (is_ipv6_addr lib e.hostname)) [
    | inl six ↦
        let at = substr-append (b'[' ∷ []) e.hostname (b']' ∷ b':' ∷ to_string e.port) in
        let h' = rw six at h in rw six (rw (h', parse_endpoint_internal, at) refl)
    | inr four ↦
        let at = substr-append [] e.hostname (b':' ∷ to_string e.port) in
        let h' = rw four at h in rw four (rw (h', parse_endpoint_internal, at) refl)
  ]

  refuses :
      (s : Bytes)
      → lib.parse_fields true s ≡ none
      → parse_endpoint_internal lib s ≡ some (err value_error)
  unfolding parse_endpoint_internal
  refuses s h = rw (h, parse_endpoint_internal) refl

  -- Where http_parser finds the host and the port of an endpoint's text where they were written:
  -- the endpoint is parsed back, and if http_parser refuses the host name alone, then the host name
  -- alone is parsed as the endpoint too, at its port as the default.
  pub parse-serialize_endpoint :
      (e : Endpoint) (default_port : ℕ)
      → lib.parse_fields true (serialize_endpoint lib e) ≡ some (endpoint_layout e)
      → lib.parse_fields true e.hostname ≡ none
      → (parse_endpoint lib (serialize_endpoint lib e) default_port ≡ some (ok e))
        × (parse_endpoint lib e.hostname e.port ≡ some (ok e))
  unfolding parse_endpoint serialize_endpoint
  parse-serialize_endpoint e default_port h refused =
      let again = found e h in
      (rw (again, parse_endpoint) refl, rw (refuses e.hostname refused, parse_endpoint) again)
