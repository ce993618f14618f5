-- ===== src/Ooni/WebConnectivity.antt =====
-- ooni/web_connectivity.cpp: the blocking decision. A result of `none` is an exception that the JSON
-- library throws, or a front element of no list.
pub mod Document
pub mod Compare
pub mod Verdict
pub mod Connects
use Prim.Native.Nat.{min, max}
use libight.Http.Headers.{Header, tolower}
use libight.Http.ResponseParser.{Response}
use libight.Prelude.{
  ◌/◌, map, ltb, length, get_elem?, ℕ, zero, suc, ◌+◌, Bool, true, false, not, ◌&&◌, ◌||◌, List, [],
  ◌∷◌, ◌++◌, Option, none, some, ◌==◌, if◌then◌else◌,
}
use libight.Prelude.Bytes.{Bytes, codes, beq}
use libight.Prelude.Decimal.{to_string}
use libight.Common.Text.Split.{split}
use libight.Ooni.WebConnectivity.Document.{
  Lookups, TcpResult, Control, Blocking, undecided, not_blocked, blocked_by, Entry, consistent,
  inconsistent,
}
use libight.Ooni.WebConnectivity.Compare.{
  common_server_headers, headers_match, title_match, status_match, compare_http_requests,
  addresses_consistent, compare_dns_queries, lookup, address_port, set_blocked, connect_loop,
  compare_tcp_connect,
}

-- `split(failure).front()`
front : Option (List Bytes) → Option Bytes
front (some (w ∷ ws)) = some w
front _ = none

unfoldable pub first_word : Option Bytes → Option Bytes
unfolding front
first_word none = some []
first_word (some failure) = front (split failure (codes " "))

-- Whether the page is the expected one, where neither request failed. The operands of `||` and `&&`
-- are read from the left, and null is no Boolean.
unfoldable pub page_matches : Entry → Option Bool
page_matches e = elim e.body_length_match [
  | none ↦ none
  | some true ↦ e.status_code_match
  | some false ↦ elim e.headers_match [
    | none ↦ none
    | some true ↦ e.status_code_match
    | some false ↦ elim e.title_match [
      | none ↦ none
      | some true ↦ e.status_code_match
      | some false ↦ some false
    ]
  ]
]

-- The chain of tests for the blocking reason; the last argument says whether the control's DNS
-- lookup failed.
unfoldable pub blocking_reason : Bool → Bool → Bool → Bytes → Bytes → Bool → Option Bytes
blocking_reason dns_consistent tcp_success expected exp_failure ctrl_failure dns_failed =
    if dns_consistent && not tcp_success && not (beq exp_failure [])
    then some (codes "tcp_ip")
    else if dns_consistent
        && tcp_success
        && not expected
        && beq exp_failure []
        && beq ctrl_failure []
    then some (codes "http-diff")
    else if dns_consistent && tcp_success && not (beq exp_failure []) && beq ctrl_failure []
    then (if beq exp_failure (codes "dns_lookup_error")
        then some (codes "dns")
        else some (codes "http-failure"))
    else if not dns_consistent && not expected
    then some (codes "dns")
    else if dns_consistent
        && not expected
        && (beq exp_failure [] && beq ctrl_failure [])
        && (dns_failed || not (beq ctrl_failure exp_failure))
    then some (codes "dns")
    else none

-- What is done with "blocking", once the chain has set it or left it.
settle : Entry → Blocking → Option Entry
settle e undecided = some (record e { accessible = some true; blocking = not_blocked })
settle e not_blocked = none
settle e (blocked_by reason) =
    some (record e { accessible = some false; blocking = blocked_by reason })

unfoldable pub decide : Entry → Option Bytes → Option Entry
unfolding settle
decide e none = settle e e.blocking
decide e (some reason) = settle e (blocked_by reason)

unfoldable pub expected_page : Entry → Bytes → Bytes → Option Bool
expected_page e exp_failure ctrl_failure =
    if beq exp_failure [] && beq ctrl_failure [] then page_matches e else some false

unfoldable pub is_failed : Option Bytes → Bool
is_failed none = false
is_failed (some f) = true

-- From "determining blocking reason" on; the last argument is `got_expected_web_page`.
unfoldable pub judge : Entry → Control → Bool → Bool → Bytes → Bytes → Option Bool → Option Entry
judge e control dns_consistent tcp_success exp_failure ctrl_failure none = none
judge e control dns_consistent tcp_success exp_failure ctrl_failure (some expected) = decide e (
    blocking_reason dns_consistent tcp_success expected exp_failure ctrl_failure
      (is_failed control.dns_failure))

unfoldable pub with_failures :
    Entry → Control → Bool → Bool → Option Bytes → Option Bytes → Option Entry
with_failures e control dns_consistent tcp_success (some exp) (some ctrl) =
    judge e control dns_consistent tcp_success exp ctrl (expected_page e exp ctrl)
with_failures e control dns_consistent tcp_success _ _ = none

after_dns : Entry → Control → Option Bool → Option Entry
after_dns e control none = none
after_dns e control (some dns_consistent) =
    let compared = compare_tcp_connect control.tcp_connect e.tcp_connect in
    with_failures
      (record e {
        dns_consistency = some (if dns_consistent then consistent else inconsistent);
        tcp_connect = compared.0;
      })
      control dns_consistent compared.1 (first_word e.http_experiment_failure)
      (first_word control.http_failure)

-- `compare_control_experiment`
unfoldable pub compare_control_experiment :
    Lookups → Option Response → Bytes → List Bytes → Control → Entry → Option Entry
unfolding after_dns
compare_control_experiment l response address addresses control e =
    if is_failed e.control_failure
    then some e
    else (let compared =
          (if is_failed e.http_experiment_failure || is_failed control.http_failure
            then e
            else compare_http_requests l response control e) in
        after_dns compared control
          (compare_dns_queries l address e.dns_experiment_failure addresses control))
