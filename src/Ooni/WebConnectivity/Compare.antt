-- ===== src/Ooni/WebConnectivity/Compare.antt =====
-- The comparisons of ooni/web_connectivity.cpp: pages, addresses and connections.
use Prim.Native.Nat.{min, max}
use libight.Http.Headers.{tolower}
use libight.Http.ResponseParser.{Response}
use libight.Prelude.{
  ◌/◌, map, ltb, length, get_elem?, ℕ, zero, suc, ◌+◌, Bool, true, false, not, ◌&&◌, ◌||◌, List, [],
  ◌∷◌, ◌++◌, Option, none, some, ◌==◌, if◌then◌else◌,
}
use libight.Prelude.Bytes.{Bytes, codes, beq}
use libight.Prelude.Decimal.{to_string}
use libight.Common.Text.Split.{split}
use libight.Ooni.WebConnectivity.Document.{
  member, intersects, is_subset, Lookups, TcpResult, Control, Entry,
}

-- `constants::COMMON_SERVER_HEADERS`
abbrev pub common_server_headers : List Bytes
common_server_headers =
    codes "date"
    ∷ codes "content-type"
    ∷ codes "server"
    ∷ codes "cache-control"
    ∷ codes "vary"
    ∷ codes "set-cookie"
    ∷ codes "location"
    ∷ codes "expires"
    ∷ codes "x-powered-by"
    ∷ codes "content-encoding"
    ∷ codes "last-modified"
    ∷ codes "accept-ranges"
    ∷ codes "pragma"
    ∷ codes "x-frame-options"
    ∷ codes "etag"
    ∷ codes "x-content-type-options"
    ∷ codes "age"
    ∷ codes "via"
    ∷ codes "p3p"
    ∷ codes "x-xss-protection"
    ∷ codes "content-language"
    ∷ codes "cf-ray"
    ∷ codes "strict-transport-security"
    ∷ codes "link"
    ∷ codes "x-varnish"
    ∷ []

-- Whether an element of the first list is in the second one, but not in the third one.
has_uncommon : List Bytes → List Bytes → List Bytes → Bool
unfolding member
has_uncommon [] ys common = false
has_uncommon (x ∷ xs) ys common = member x ys && not (member x common) || has_uncommon xs ys common

-- On the keys in lower case.
unfoldable pub headers_match : List Bytes → List Bytes → Bool
unfolding is_subset has_uncommon
headers_match ctrl exp =
    if is_subset ctrl exp && is_subset exp ctrl
    then true
    else has_uncommon exp ctrl common_server_headers

-- The loop over the words of the experiment's title; `matched` is "title_match" so far.
title_loop : List Bytes → ℕ → List Bytes → Bool → Bool
title_loop [] idx ctrl matched = matched
title_loop (w ∷ ws) idx ctrl matched =
    let rest = title_loop ws (idx + 1) ctrl matched in
    if ltb (length w) 5
    then rest
    else (elim (get_elem? ctrl idx) [ none ↦ matched | some v ↦ beq w v ])

words : Bytes → List Bytes
words s = elim (split s (codes " ")) [ none ↦ [] | some ws ↦ ws ]

unfoldable pub title_match : Bytes → Bytes → Bool
unfolding title_loop words
title_match exp ctrl = title_loop (words exp) 0 (words ctrl) (beq exp ctrl)

unfoldable pub status_match : ℕ → ℕ → Bool
status_match ctrl exp = if not (ctrl / 100 == 5) then ctrl == exp else true

lower : Bytes → Bytes
lower s = map tolower s

module _ (l : Lookups) where
  length_match : ℕ → ℕ → Bool
  length_match ctrl exp =
      if ctrl == exp
      then true
      else if ctrl == 0 || exp == 0
      then false
      else l.above_factor (min ctrl exp) (max ctrl exp)

  unfoldable pub compare_http_requests : Option Response → Control → Entry → Entry
  unfolding length_match lower
  compare_http_requests none control e = e
  compare_http_requests (some response) control e = record e {
    body_length_match = some (length_match control.body_length (length response.body));
    status_code_match = some (status_match control.status_code response.status_code);
    headers_match =
        some (headers_match (map lower control.headers) (map (λ h. lower h.key) response.headers));
    title_match = some (title_match (l.extract_html_title response.body) control.title);
  }

  any_private : List Bytes → Bool
  any_private [] = false
  any_private (x ∷ xs) = l.is_private_ipv4_addr x || any_private xs

  asns : List Bytes → List Bytes
  asns [] = []
  asns (x ∷ xs) = elim (l.lookup_asn x) [ none ↦ asns xs | some asn ↦ asn ∷ asns xs ]

  unfoldable pub addresses_consistent : List Bytes → List Bytes → Bool
  unfolding is_subset intersects any_private asns
  addresses_consistent exp_addresses ctrl_addresses =
      if is_subset exp_addresses ctrl_addresses && is_subset ctrl_addresses exp_addresses
      then true
      else if any_private exp_addresses
      then false
      else if intersects exp_addresses ctrl_addresses
      then true
      else intersects (asns exp_addresses) (asns ctrl_addresses)

  same_failure : Bytes → Option Bytes → Option Bool
  same_failure exp_failure none = none
  same_failure exp_failure (some ctrl_failure) = some (beq exp_failure ctrl_failure)

  -- Whether "dns_consistency" becomes "consistent".
  unfoldable pub compare_dns_queries : Bytes → Option Bytes → List Bytes → Control → Option Bool
  unfolding addresses_consistent same_failure
  compare_dns_queries address dns_failure addresses control =
      if l.is_ip_addr address then some true else (elim dns_failure [
        | some exp_failure ↦ same_failure exp_failure control.dns_failure
        | none ↦ some (addresses_consistent addresses control.addrs)
      ])

abbrev pub lookup : Bytes → List (Bytes × Bool) → Option Bool
lookup key [] = none
lookup key ((k, v) ∷ rest) = if beq key k then some v else lookup key rest

abbrev pub address_port : TcpResult → Bytes
address_port r = r.ip ++ (codes ":" ++ to_string r.port)

-- `(*entry)["tcp_connect"][idx]["status"]["blocked"] = b`
unfoldable pub set_blocked : ℕ → Bool → List TcpResult → List TcpResult
set_blocked i b [] = []
set_blocked zero b (r ∷ rs) = record r { blocked = some b } ∷ rs
set_blocked (suc i) b (r ∷ rs) = r ∷ set_blocked i b rs

-- The loop: the results that are left, `idx`, what is in the entry, and `success`.
unfoldable pub connect_loop :
    List (Bytes × Bool) → List TcpResult → ℕ → List TcpResult → Bool → List TcpResult × Bool
unfolding set_blocked
connect_loop control [] idx entries success = (entries, success)
connect_loop control (r ∷ rs) idx entries success = elim (lookup (address_port r) control) [
  | none ↦ connect_loop control rs idx entries success
  | some ctrl_status ↦
      connect_loop control rs (idx + 1) (set_blocked idx (ctrl_status && not r.success) entries)
        (success && not (ctrl_status && not r.success))
]

unfoldable pub compare_tcp_connect : List (Bytes × Bool) → List TcpResult → List TcpResult × Bool
unfolding connect_loop
compare_tcp_connect control results = connect_loop control results 0 results true
