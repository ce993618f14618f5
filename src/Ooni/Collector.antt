-- ===== src/Ooni/Collector.antt =====
-- The client of the collector: ooni/collector_client.cpp and ooni/collector_client_impl.hpp. JSON
-- documents, regular expressions, and what the network gives are parameters.
pub mod Client
pub mod Operations
pub mod Outcomes
pub mod Submission
pub mod Success
use libight.Prelude.{
  ℕ, ◌+◌, ◌/◌, Bool, true, false, not, List, [], ◌∷◌, ◌++◌, Option, none, some, ◌==◌, if◌then◌else◌,
}
use libight.Prelude.Bytes.{Bytes, codes, beq}
use libight.Common.Error.{
  Error, ErrorOr, ok, err, is_error, same_code, no_error, file_eof_error, file_io_error,
  json_processing_error,
}
use libight.Http.Errors.{http_request_failed_error}
use libight.Http.Headers.{Header, headers_push_back}
use libight.Http.Url.{Url, parse_url}
use libight.Net.Address.{Libraries}
use libight.Ooni.Errors.{
  missing_collector_base_url_error, cannot_open_report_error, missing_mandatory_key_error,
  invalid_mandatory_value_error,
}

-- What is used of the JSON library, on its documents. Where `none` is, it throws.
pub record Json (J : Type 0) : Type 0 where
  pub parse : Bytes → Option J
  pub dump : J → Option Bytes
  -- `at`, converted to a text
  pub at_string : Bytes → J → Option Bytes
  -- `operator[]`, which is null for a key that is not there
  pub get : Bytes → J → Option J
  pub is_null : J → Bool
  pub set : Bytes → J → J → J
  pub string : Bytes → J
  pub empty_array : J
  pub object : List (Bytes × J) → J

-- What is used of regexp/.
pub record Patterns : Type 0 where
  pub valid_nettest_name : Bytes → Bool
  pub valid_nettest_version : Bytes → Bool
  pub valid_probe_asn : Bytes → Bool
  pub valid_country_code : Bytes → Bool
  pub valid_test_start_time : Bytes → Bool

pub record Settings : Type 0 where
  pub collector_base_url : Option Bytes
  pub collector_front_domain : Option Bytes

pub record Request : Type 0 where
  pub url : Bytes
  pub headers : List Header
  pub body : Bytes

-- How a request ends, `status_code` and `body` where `failure` is none.
pub record Exchange : Type 0 where
  pub failure : Error
  pub status_code : ℕ
  pub body : Bytes

-- What the network is going to give, and what was done.
pub record State : Type 0 where
  pub connect_error : Error
  pub exchanges : List Exchange
  pub requests : List Request
  -- how many transports were connected, and closed
  pub connections : ℕ
  pub closed : ℕ

-- `waits`: a request never ends. `faults`: an exception that nothing catches.
pub data Outcome (A : Type 0) : Type 0 where
  returns : A → State → Outcome A
  fails : Error → State → Outcome A
  waits : State → Outcome A
  faults : Outcome A

abbrev pub M : Type 0 → Type 0
M A = State → Outcome A

abbrev pub bind : {A B : Type 0} → Outcome A → (A → M B) → Outcome B
bind (returns a s) f = f a s
bind (fails e s) f = fails e s
bind (waits s) f = waits s
bind faults f = faults

infixl 5 ◌>>=◌ ◌>>◌
abbrev pub ◌>>=◌ : {A B : Type 0} → M A → (A → M B) → M B
◌>>=◌ m f s = bind (m s) f

abbrev pub ◌>>◌ : {A B : Type 0} → M A → M B → M B
m >> k = m >>= λ _. k

abbrev pub pure : {A : Type 0} → A → M A
pure a s = returns a s

abbrev pub fail : {A : Type 0} → Error → M A
fail e s = fails e s

abbrev pub fault : {A : Type 0} → M A
fault s = faults

abbrev pub fail_if : Error → M (Unit {0})
fail_if e = if is_error e then fail e else pure tt

abbrev pub or_fail : {A : Type 0} → Error → Option A → M A
or_fail e none = fail e
or_fail e (some a) = pure a

abbrev pub or_fault : {A : Type 0} → Option A → M A
or_fault none s = faults
or_fault (some a) s = returns a s

-- `txp->close`
abbrev pub close : M (Unit {0})
close s = returns tt (record s { closed = s.closed + 1 })

abbrev pub close_failed : {A : Type 0} → Outcome A → Outcome A
close_failed (returns a s) = returns a s
close_failed (fails e s) = fails e (record s { closed = s.closed + 1 })
close_failed (waits s) = waits s
close_failed faults = faults

-- An error is passed on when the transport is closed.
abbrev pub closing : {A : Type 0} → M A → M A
closing m s = close_failed (m s)

-- The mandatory keys in the order of the map.
abbrev pub mandatory_re : Patterns → List (Bytes × (Bytes → Bool))
mandatory_re p =
    (codes "data_format_version", p.valid_nettest_version)
    ∷ (codes "probe_asn", p.valid_probe_asn)
    ∷ (codes "probe_cc", p.valid_country_code)
    ∷ (codes "software_name", p.valid_nettest_name)
    ∷ (codes "software_version", p.valid_nettest_version)
    ∷ (codes "test_name", p.valid_nettest_name)
    ∷ (codes "test_start_time", p.valid_test_start_time)
    ∷ (codes "test_version", p.valid_nettest_version)
    ∷ []

-- The key must be there with a value that the pattern allows, or there is an error.
abbrev pub valid_value : Bytes → (Bytes → Bool) → Option Bytes → Error
valid_value key re none = missing_mandatory_key_error
valid_value key re (some v) = if re v then no_error else invalid_mandatory_value_error key

front_url : Bytes → Option (ErrorOr Url) → M (Bytes × List Header)
front_url front (some (ok url)) =
    pure (codes "https://" ++ (front ++ url.path), headers_push_back [] (codes "Host") url.address)
front_url front _ = fault

unfoldable pub base_url_over : Libraries → Option Bytes → Bytes → M (Bytes × List Header)
unfolding front_url
base_url_over lib none url = pure (url, [])
base_url_over lib (some front) url = front_url front (parse_url lib url)

-- `collector_base_url`, through the front domain if there is one, with the headers.
unfoldable pub base_url : Libraries → Settings → M (Bytes × List Header)
unfolding base_url_over
base_url lib settings = do
  url ← or_fail missing_collector_base_url_error settings.collector_base_url
  base_url_over lib settings.collector_front_domain url

abbrev pub take_exchange : Request → List Exchange → M Exchange
take_exchange r [] s = waits (record s { requests = s.requests ++ r ∷ [] })
take_exchange r (e ∷ es) s =
    returns e (record s { exchanges = es; requests = s.requests ++ r ∷ [] })

-- `http::request_sendrecv`
abbrev pub request_sendrecv : Request → M Exchange
request_sendrecv r s = take_exchange r s.exchanges s

abbrev pub post_request : Bytes × List Header → Bytes → Bytes → Request
post_request (url, headers) append_to_url body = record {
  url = url ++ append_to_url;
  headers =
      if not (beq body [])
      then headers_push_back headers (codes "Content-Type") (codes "application/json")
      else headers;
  body = body;
}

-- `http::request_connect`
abbrev pub connected : M (Unit {0})
connected s =
    if is_error s.connect_error
    then fails s.connect_error s
    else returns tt (record s { connections = s.connections + 1 })
