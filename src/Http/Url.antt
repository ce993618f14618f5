-- ===== src/Http/Url.antt =====
-- URLs of http/parse_url.cpp. http_parser, which is vendored, is a parameter.
pub mod RoundTrip
use libight.Prelude.{
  ℕ, ◌+◌, Bool, true, false, not, ◌&&◌, ◌||◌, List, [], ◌∷◌, ◌++◌, map, Option, none, some, ltb,
  leb, ◌==◌, if◌then◌else◌, length,
}
use libight.Prelude.Bytes.{Bytes, codes, beq}
use libight.Prelude.Decimal.{to_string}
use libight.Common.Error.{ErrorOr, ok, err}
use libight.Http.Errors.{url_parser_error, missing_url_schema_error, missing_url_host_error}
use libight.Http.Headers.{tolower}
use libight.Net.Address.{UrlFields, Libraries, substr_at, is_set, is_ipv6_addr}

pub record Url : Type 0 where
  pub schema : Bytes
  pub address : Bytes
  pub port : ℕ
  pub path : Bytes
  pub query : Bytes
  pub pathquery : Bytes

-- The loop over the schema; `none` is `abort`.
unfoldable pub lower_schema : Bytes → Option Bytes
lower_schema [] = some []
lower_schema (ch ∷ s) =
    let rest = lower_schema s in
    if leb 128 ch then none else elim rest [ none ↦ none | some t ↦ some (tolower ch ∷ t) ]

url_port : Bytes → Option ℕ → ℕ
url_port schema (some p) = p
url_port schema none = if beq schema (codes "https") then 443 else 80

-- The part that may be absent: what stands for it then.
part_or : Bytes → Bytes → Option (ℕ × ℕ) → Option Bytes
part_or default url none = some default
part_or default url (some place) = substr_at url (some place)

url_of : Option ℕ → Bool → Option Bytes → Option Bytes → Option Bytes → Option Bytes → Option Url
unfolding url_port
url_of port has_query (some schema) (some address) (some path) (some query) = some (record {
  schema = schema;
  address = address;
  port = url_port schema port;
  path = path;
  query = query;
  pathquery = if has_query then path ++ (codes "?" ++ query) else path;
})
url_of _ _ _ _ _ _ = none

lower_part : Option Bytes → Option Bytes
unfolding lower_schema
lower_part none = none
lower_part (some s) = lower_schema s

unfoldable pub fields_url : Bytes → UrlFields → Option (ErrorOr Url)
unfolding url_of part_or lower_part
fields_url url f =
    if not (is_set f.schema)
    then some (err missing_url_schema_error)
    else if not (is_set f.host)
    then some (err missing_url_host_error)
    else (elim (url_of f.port (is_set f.query) (lower_part (substr_at url f.schema))
        (substr_at url f.host) (part_or (codes "/") url f.path) (part_or [] url f.query)) [
          | none ↦ none
          | some u ↦ some (ok u)
        ])

-- Whether `str` and `serialize` write the port.
unfoldable pub port_shown : Url → Bool
port_shown u =
    beq u.schema (codes "http") && not (u.port == 80)
    || beq u.schema (codes "https") && not (u.port == 443)

module _ (lib : Libraries) where
  -- `parse_url_noexcept`; `none` where something else than an `Error` stops it.
  unfoldable pub parse_url : Bytes → Option (ErrorOr Url)
  parse_url url = elim (lib.parse_fields false url) [
    | none ↦ some (err url_parser_error)
    | some f ↦ fields_url url f
  ]

  -- `Url::str`
  unfoldable pub str : Url → Bytes
  unfolding port_shown
  str u =
      u.schema
      ++ (codes "://"
          ++ ((if is_ipv6_addr lib u.address then codes "[" else [])
              ++ (u.address
                  ++ ((if is_ipv6_addr lib u.address then codes "]" else [])
                      ++ ((if port_shown u then codes ":" ++ to_string u.port else [])
                          ++ (if not (beq u.pathquery []) then u.pathquery else codes "/"))))))
