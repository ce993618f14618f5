-- ===== src/Tests/WebTests.antt =====
-- ooni/web_connectivity.cpp at concrete inputs.
use libight.Prelude.{
  ◌≡◌, refl, Bool, true, false, not, ◌||◌, List, [], ◌∷◌, map, none, some, if◌then◌else◌, All,
}
use libight.Prelude.Bytes.{Bytes, codes, beq}
use libight.Prelude.Decimal.{to_string}
use libight.Net.Address.{is_set}
use libight.Http.ResponseParser.{Response, empty_response}
use libight.Ooni.WebConnectivity.Document.{
  Lookups, TcpResult, Control, Entry, undecided, consistent, inconsistent, is_subset,
}
use libight.Ooni.WebConnectivity.Compare.{
  addresses_consistent, compare_tcp_connect, compare_http_requests, headers_match, title_match,
  status_match, lookup, address_port,
}
use libight.Ooni.WebConnectivity.{page_matches, compare_control_experiment, is_failed}
use libight.Ooni.WebConnectivity.Verdict.{verdict, with_verdict, compare_control_experiment_lem}
use libight.Ooni.WebConnectivity.Connects.{marked, any_blocked, compare_tcp_connect_lem}

abbrev lookups : Lookups
lookups = record {
  is_ip_addr = λ s. false;
  is_private_ipv4_addr = λ s. false;
  lookup_asn = λ s. none;
  extract_html_title = λ s. [];
  above_factor = λ a b. false;
}

abbrev one_result : TcpResult
one_result = record { ip = codes "1.2.3.4"; port = 80; success = false; blocked = none }

abbrev control_results : List (Bytes × Bool)
control_results = (codes "1.2.3.4:80", true) ∷ []

known : All (λ r. is_set (lookup (address_port r) control_results) ≡ true) (one_result ∷ [])
unfolding to_string beq
known = (refl, tt)

compare_tcp_connect_lem_example :
    ◌≡◌ {A = List TcpResult × Bool} (compare_tcp_connect control_results (one_result ∷ [])) (
      map (marked control_results) (one_result ∷ []),
      not (any_blocked control_results (one_result ∷ [])),
    )
compare_tcp_connect_lem_example = compare_tcp_connect_lem control_results (one_result ∷ []) known

abbrev control : Control
control = record {
  http_failure = none;
  body_length = 7;
  status_code = 200;
  headers = [];
  title = [];
  dns_failure = none;
  addrs = codes "1.2.3.4" ∷ [];
  tcp_connect = control_results;
}

abbrev entry : Entry
entry = record {
  control_failure = none;
  http_experiment_failure = none;
  dns_experiment_failure = none;
  dns_consistency = none;
  body_length_match = none;
  headers_match = none;
  title_match = none;
  status_code_match = none;
  tcp_connect = record one_result { success = true } ∷ [];
  blocking = undecided;
  accessible = none;
}

abbrev blockpage : Response
blockpage = record empty_response { status_code = 403 }

differs : page_matches (compare_http_requests lookups (some blockpage) control entry) ≡ some false
unfolding page_matches compare_http_requests empty_response headers_match title_match status_match
    is_subset
differs = refl

compare_control_experiment_lem_example :
    compare_control_experiment lookups
      (some blockpage)
      (codes "ooni.org")
      (codes "1.2.3.4" ∷ [])
      control
      entry
    ≡ some (
        with_verdict
          (record (compare_http_requests lookups (some blockpage) control entry) {
            dns_consistency = some (
                if lookups.is_ip_addr (codes "ooni.org")
                  || addresses_consistent lookups (codes "1.2.3.4" ∷ []) (codes "1.2.3.4" ∷ [])
                then consistent
                else inconsistent);
            tcp_connect = (compare_tcp_connect control_results entry.tcp_connect).0;
          })
          (verdict
            (lookups.is_ip_addr (codes "ooni.org")
              || addresses_consistent lookups (codes "1.2.3.4" ∷ []) (codes "1.2.3.4" ∷ []))
            (compare_tcp_connect control_results entry.tcp_connect).1
            false
            (is_failed none)))
compare_control_experiment_lem_example =
    compare_control_experiment_lem lookups blockpage (codes "ooni.org") (codes "1.2.3.4" ∷ [])
      control entry false refl refl refl refl refl differs
