-- ===== src/Net/Address.antt =====
-- Addresses and endpoints of net/utils.cpp. What it calls of the platform and of http_parser, which
-- is vendored, is a parameter.
pub mod RoundTrip
use libight.Prelude.{
  ℕ, ◌+◌, Bool, true, false, not, ◌&&◌, ◌||◌, List, [], ◌∷◌, ◌++◌, Option, none, some, ltb, ◌==◌,
  if◌then◌else◌, length, take, drop,
}
use libight.Prelude.Bytes.{Bytes, codes}
use libight.Prelude.Decimal.{to_string}
use libight.Common.Error.{Error, ErrorOr, ok, err, no_error, value_error, same_code}

-- `http_parser_url`: where the parts of a URL are, as offset and length, and the port.
pub record UrlFields : Type 0 where
  pub schema : Option (ℕ × ℕ)
  pub host : Option (ℕ × ℕ)
  pub port : Option ℕ
  pub path : Option (ℕ × ℕ)
  pub query : Option (ℕ × ℕ)

pub record Libraries : Type 0 where
  -- whether `inet_pton` returns 1, for AF_INET and for AF_INET6
  pub inet_pton4 : Bytes → Bool
  pub inet_pton6 : Bytes → Bool
  -- `http_parser_parse_url`, with its flag for CONNECT; `none` where it does not return 0
  pub parse_fields : Bool → Bytes → Option UrlFields

-- `std::string::substr`; `none` is `std::out_of_range`.
abbrev pub substr : Bytes → ℕ × ℕ → Option Bytes
substr s (off, len) = if ltb (length s) off then none else some (take len (drop off s))

abbrev pub is_set : {A : Type 0} → Option A → Bool
is_set none = false
is_set (some a) = true

abbrev pub substr_at : Bytes → Option (ℕ × ℕ) → Option Bytes
substr_at s none = none
substr_at s (some place) = substr s place

pub record Endpoint : Type 0 where
  pub hostname : Bytes
  pub port : ℕ

module _ (lib : Libraries) where
  abbrev make_sockaddr_ipv4 : Bytes → Error
  make_sockaddr_ipv4 s = if not (lib.inet_pton4 s) then value_error else no_error

  abbrev make_sockaddr_ipv6 : Bytes → Error
  make_sockaddr_ipv6 s = if not (lib.inet_pton6 s) then value_error else no_error

  unfoldable pub is_ipv4_addr : Bytes → Bool
  is_ipv4_addr s = same_code (make_sockaddr_ipv4 s) no_error

  unfoldable pub is_ipv6_addr : Bytes → Bool
  is_ipv6_addr s = same_code (make_sockaddr_ipv6 s) no_error

  unfoldable pub is_ip_addr : Bytes → Bool
  unfolding is_ipv4_addr is_ipv6_addr
  is_ip_addr s = is_ipv4_addr s || is_ipv6_addr s

  -- The `assert`, on the fields that are modelled; `none` stands for its failure.
  only_host_and_port : UrlFields → Bool
  only_host_and_port f =
      not (is_set f.schema)
      && is_set f.host
      && is_set f.port
      && not (is_set f.path)
      && not (is_set f.query)

  host_and_port : Option Bytes → Option ℕ → Option (ErrorOr Endpoint)
  host_and_port (some h) (some p) = some (ok (record { hostname = h; port = p }))
  host_and_port _ _ = none

  endpoint_of : Bytes → UrlFields → Option (ErrorOr Endpoint)
  unfolding only_host_and_port host_and_port
  endpoint_of s f = if only_host_and_port f then host_and_port (substr_at s f.host) f.port else none

  unfoldable pub parse_endpoint_internal : Bytes → Option (ErrorOr Endpoint)
  unfolding endpoint_of
  parse_endpoint_internal s = elim (lib.parse_fields true s) [
    | none ↦ some (err value_error)
    | some f ↦ endpoint_of s f
  ]

  unfoldable pub serialize_address_port : Bytes → ℕ → Bytes
  serialize_address_port a p =
      let is_ipv6 = is_ipv6_addr a in
      (if is_ipv6 then codes "[" else [])
      ++ (a ++ ((if is_ipv6 then codes "]" else []) ++ (codes ":" ++ to_string p)))

  -- The second try, with the default port.
  parse_with_default : Bytes → ℕ → Option (ErrorOr Endpoint) → Option (ErrorOr Endpoint)
  parse_with_default s default_port none = none
  parse_with_default s default_port (some (ok e)) = some (ok e)
  parse_with_default s default_port (some (err x)) =
      parse_endpoint_internal (serialize_address_port s default_port)

  unfoldable pub parse_endpoint : Bytes → ℕ → Option (ErrorOr Endpoint)
  unfolding parse_with_default
  parse_endpoint s default_port = parse_with_default s default_port (parse_endpoint_internal s)

  unfoldable pub serialize_endpoint : Endpoint → Bytes
  serialize_endpoint epnt = serialize_address_port epnt.hostname epnt.port
