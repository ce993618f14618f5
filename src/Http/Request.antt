-- ===== src/Http/Request.antt =====
-- `Request` of http/request.cpp: making it from the settings, and its text.
use libight.Prelude.{not, List, [], ◌∷◌, ◌++◌, Option, none, some, ◌==◌, if◌then◌else◌, length}
use libight.Prelude.Bytes.{Bytes, codes, beq}
use libight.Prelude.Decimal.{to_string}
use libight.Common.Error.{ErrorOr, ok, err}
use libight.Http.Errors.{missing_url_error}
use libight.Http.Headers.{Header, headers_find_first}
use libight.Http.Url.{Url, parse_url, port_shown}
use libight.Net.Address.{Libraries}

-- The settings that `Request::init` looks up; `none` is a setting that is not there.
pub record Settings : Type 0 where
  pub url : Option Bytes
  pub http_version : Option Bytes
  pub method : Option Bytes
  pub path : Option Bytes

abbrev get : Option Bytes → Bytes → Bytes
get none default = default
get (some v) default = v

pub record Request : Type 0 where
  pub method : Bytes
  pub url : Url
  pub url_path : Bytes
  pub protocol : Bytes
  pub headers : List Header
  pub body : Bytes

add_slash : Bytes → Bytes
add_slash [] = []
add_slash (c ∷ s) = if not (c == b'/') then b'/' ∷ c ∷ s else c ∷ s

request_at : Settings → List Header → Bytes → Url → Request
unfolding add_slash
request_at settings headers body url = record {
  method = get settings.method (codes "GET");
  url = url;
  url_path = add_slash (get settings.path []);
  protocol = get settings.http_version (codes "HTTP/1.1");
  headers = headers;
  body = body;
}

with_url : Settings → List Header → Bytes → Option (ErrorOr Url) → Option (ErrorOr Request)
unfolding request_at
with_url settings headers body none = none
with_url settings headers body (some (err e)) = some (err e)
with_url settings headers body (some (ok u)) = some (ok (request_at settings headers body u))

-- `Request::make` and `Request::init`; `none` where parsing the URL aborts.
unfoldable pub make : Libraries → Settings → List Header → Bytes → Option (ErrorOr Request)
unfolding with_url
make lib settings headers body = elim settings.url [
  | none ↦ some (err missing_url_error)
  | some u ↦ with_url settings headers body (parse_url lib u)
]

abbrev crlf : Bytes
crlf = codes "\r\n"

header_lines : List Header → Bytes
header_lines [] = []
header_lines (h ∷ hs) = h.key ++ (codes ": " ++ (h.value ++ (crlf ++ header_lines hs)))

host_line : Url → Bytes
host_line u =
    codes "Host: "
    ++ (u.address ++ ((if port_shown u then codes ":" ++ to_string u.port else []) ++ crlf))

-- `Request::serialize`: what it adds to the buffer.
unfoldable pub serialize : Request → Bytes
unfolding header_lines host_line
serialize r =
    r.method
    ++ (codes " "
        ++ ((if not (beq r.url_path []) then r.url_path else r.url.pathquery)
            ++ (codes " "
                ++ (r.protocol
                    ++ (crlf
                        ++ (header_lines r.headers
                            ++ ((if beq (headers_find_first r.headers (codes "host")) []
                                  then host_line r.url
                                  else [])
                                ++ ((if not (beq r.body [])
                                      then codes "Content-Length: "
                                        ++ (to_string (length r.body) ++ crlf)
                                      else [])
                                    ++ (crlf ++ r.body)))))))))
