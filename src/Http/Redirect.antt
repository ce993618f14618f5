-- ===== src/Http/Redirect.antt =====
-- `redirect` and `request` of http/request.cpp: following redirects.
pub mod Bounded
pub mod Target
use libight.Prelude.{
  ℕ, zero, suc, ◌+◌, ◌/◌, Bool, true, false, not, ◌&&◌, List, [], ◌∷◌, ◌++◌, Option, none, some,
  ltb, leb, ◌==◌, ◌||◌, if◌then◌else◌,
}
use libight.Prelude.Bytes.{Bytes, codes, beq}
use libight.Common.Error.{Error, ErrorOr, ok, err, no_error}
use libight.Common.Text.{startswith, endswith}
use libight.Http.Errors.{empty_location_error, invalid_redirect_url_error, too_many_redirects_error}
use libight.Http.Headers.{Header, headers_find_first, headers_push_back}
use libight.Http.ResponseParser.{Response}
use libight.Http.Url.{Url, parse_url, str}
use libight.Http.Cookies.{cookiestring}
use libight.Net.Address.{Libraries}

-- The URL for a location that is relative to the path.
relative_url : Url → Bytes → Url
relative_url orig_url location =
    let slashed =
      if not (endswith orig_url.path (codes "/"))
      then orig_url.path ++ codes "/"
      else orig_url.path in
    record orig_url { path = slashed ++ location; query = []; pathquery = slashed ++ location }

-- The text that `redirect` parses.
unfoldable pub redirect_text : Libraries → Url → Bytes → Bytes
unfolding relative_url
redirect_text lib orig_url location =
    if startswith location (codes "//")
    then orig_url.schema ++ (codes ":" ++ location)
    else if startswith location (codes "/")
    then str lib (record orig_url { pathquery = location })
    else if startswith location (codes "http://") || startswith location (codes "https://")
    then location
    else str lib (relative_url orig_url location)

unfoldable pub redirect : Libraries → Url → Bytes → Option (ErrorOr Url)
redirect lib orig_url location = parse_url lib (redirect_text lib orig_url location)

-- The callback is called with an error code, or the next request starts with this URL and headers.
-- `aborts` stands for a URL that stops the program.
pub data Next : Type 0 where
  calls_back : Error → Next
  again : Bytes → List Header → Next
  aborts : Next

new_headers : List Header → List Header → List Header
new_headers response request =
    let cookies = cookiestring response request in
    if not (beq cookies []) then headers_push_back request (codes "Cookie") cookies else request

follow : Libraries → ℕ → ℕ → List Header → Response → Option (ErrorOr Url) → Next
unfolding new_headers
follow lib max num headers response none = aborts
follow lib max num headers response (some (err e)) = calls_back (invalid_redirect_url_error e)
follow lib max num headers response (some (ok url)) =
    if leb max num
    then calls_back too_many_redirects_error
    else again (str lib url) (new_headers response.headers headers)

-- The callback of `request_sendrecv`, once the transport is closed. `url` is the request's. A
-- negative "http/max_redirects" takes the branches of 0.
unfoldable pub on_response : Libraries → ℕ → ℕ → Url → List Header → ErrorOr Response → Next
unfolding follow
on_response lib max num url headers (err e) = calls_back e
on_response lib max num url headers (ok response) =
    let loc = headers_find_first response.headers (codes "Location") in
    if response.status_code / 100 == 3 && ltb 0 max
    then (if beq loc []
        then calls_back empty_location_error
        else follow lib max num headers response (redirect lib url loc))
    else calls_back no_error

-- What the network does in each request: no connection, or what `request_sendrecv` reports, with
-- the URL of the request that was made.
pub data Exchange : Type 0 where
  no_connection : Error → Exchange
  exchanged : Url → ErrorOr Response → Exchange

after_exchange : Libraries → ℕ → ℕ → List Header → Exchange → Next
unfolding on_response
after_exchange lib max num headers (no_connection e) = calls_back e
after_exchange lib max num headers (exchanged url r) = on_response lib max num url headers r

-- How a request ends: the error, and how many requests were made; `none` where it aborts.
abbrev pub Ending : Type 0
Ending = Option (Error × ℕ)

-- `request` on fuel: `none` means that the fuel ran out. `network` answers the request of a number
-- to a URL with headers.
unfoldable pub request :
    Libraries
    → (ℕ → Bytes → List Header → Exchange)
    → ℕ
    → ℕ
    → ℕ
    → Bytes
    → List Header
    → Option Ending
unfolding after_exchange
request lib network max zero num url headers = none
request lib network max (suc fuel) num url headers =
    elim (after_exchange lib max num headers (network num url headers)) [
      | calls_back e ↦ some (some (e, num + 1))
      | aborts ↦ some none
      | again u hs ↦ request lib network max fuel (num + 1) u hs
    ]
