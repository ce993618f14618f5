-- ===== src/Tests/UrlTests.antt =====
-- net/utils.cpp, http/parse_url.cpp and the redirects of http/request.cpp at concrete inputs.
use libight.Prelude.{
  ℕ, ◌≡◌, refl, true, false, List, [], ◌∷◌, none, some, arith, if◌then◌else◌, ◌==◌, length,
}
use libight.Prelude.Bytes.{Bytes, codes, beq}
use libight.Prelude.Search.{find}
use libight.Prelude.Decimal.{to_string}
use libight.Common.Error.{ok}
use libight.Common.Text.{startswith}
use libight.Net.Address.{
  Libraries, Endpoint, parse_endpoint, serialize_endpoint, serialize_address_port, is_ipv6_addr,
}
use libight.Net.Address.RoundTrip.{endpoint_layout, parse-serialize_endpoint}
use libight.Http.Headers.{Header, header}
use libight.Http.Url.{Url, lower_schema, parse_url, str, port_shown}
use libight.Http.Url.RoundTrip.{IsNormal, written, layout, parse_url-str}
use libight.Http.ResponseParser.{empty_response}
use libight.Http.Cookies.{response_cookies}
use libight.Http.Cookies.Cut.{response_cookies_cut}
use libight.Http.Redirect.{Exchange, exchanged, Ending, request, redirect}
use libight.Http.Redirect.Bounded.{IsWithin, request_ends}
use libight.Http.Redirect.Target.{redirect_path}

abbrev ooni : Endpoint
ooni = record { hostname = codes "ooni.org"; port = 80 }

-- http_parser on the texts of these tests.
abbrev on_texts : Libraries
on_texts = record {
  inet_pton4 = λ s. false;
  inet_pton6 = λ s. false;
  parse_fields = λ connect s.
      if connect
      then (if length s == 11
          then some (record {
            schema = none;
            host = some (0, 8);
            port = some 80;
            path = none;
            query = none;
          })
          else none)
      else some (record {
        schema = some (0, 5);
        host = some (8, 8);
        port = some 8443;
        path = some (21, 2);
        query = some (24, 3);
      });
}

ooni_layout :
    on_texts.parse_fields true (serialize_endpoint on_texts ooni)
    ≡ some (endpoint_layout on_texts ooni)
unfolding serialize_endpoint serialize_address_port is_ipv6_addr to_string
ooni_layout = refl

parse-serialize_endpoint_example :
    (parse_endpoint on_texts (serialize_endpoint on_texts ooni) 53 ≡ some (ok ooni))
    × (parse_endpoint on_texts (codes "ooni.org") 80 ≡ some (ok ooni))
parse-serialize_endpoint_example = parse-serialize_endpoint on_texts ooni 53 ooni_layout refl

abbrev page : Url
page = record {
  schema = codes "https";
  address = codes "ooni.org";
  port = 8443;
  path = codes "/a";
  query = codes "b=c";
  pathquery = codes "/a?b=c";
}

page-IsNormal : IsNormal page
unfolding lower_schema beq
page-IsNormal = record { lower = refl; some_path = λ e. cc; whole = refl }

is_page_laid_out : on_texts.parse_fields false (str on_texts page) ≡ some (layout on_texts page)
unfolding str layout port_shown is_ipv6_addr beq to_string
is_page_laid_out = refl

parse_url-str_example : parse_url on_texts (str on_texts page) ≡ some (ok (written page))
parse_url-str_example = parse_url-str on_texts page page-IsNormal is_page_laid_out

page-written : written page ≡ page
unfolding beq
page-written = refl

-- The port of a schema that is neither http nor https is lost.
httpo-written : (written (record page { schema = codes "httpo" })).port ≡ 80
unfolding beq
httpo-written = refl

two_slashes : startswith page.pathquery (codes "//") ≡ false
unfolding startswith find
two_slashes = refl

one_slash : startswith page.pathquery (codes "/") ≡ true
unfolding startswith find
one_slash = refl

abbrev home : Url
home = record page { path = codes "/"; query = []; pathquery = codes "/" }

redirect_path_example : redirect on_texts home (codes "/a?b=c") ≡ some (ok (written page))
redirect_path_example =
    redirect_path on_texts home page refl refl refl page-IsNormal is_page_laid_out two_slashes
      one_slash

-- Every server redirects to the same place again.
abbrev redirecting : ℕ → Bytes → List Header → Exchange
redirecting n url headers = exchanged page (
    ok (record empty_response {
      status_code = 302;
      headers = header (codes "Location") (codes "/a?b=c") ∷ [];
    }))

request_ends_example :
    (ending : Ending) × (request on_texts redirecting 2 3 0 (codes "https://ooni.org:8443/a") []
      ≡ some ending)
    × IsWithin on_texts 2 ending
request_ends_example =
    request_ends on_texts redirecting 2 3 0 (codes "https://ooni.org:8443/a") [] (omega arith)
      (omega arith)

no_semicolon : find (codes ";") (codes "a=1") ≡ none
unfolding find
no_semicolon = refl

response_cookies_cut_example :
    response_cookies (header (codes "Set-Cookie") (codes "a=1; Path=/") ∷ []) [] ≡ codes "a=" ∷ []
response_cookies_cut_example = response_cookies_cut (codes "a=") b'1' (codes " Path=/") no_semicolon
