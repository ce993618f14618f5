-- ===== src/Ooni/WebConnectivity/Verdict.antt =====
-- The verdict of `compare_control_experiment` where both the experiment's and the control's requests worked.
use libight.Prelude.{
  ◌≡◌, refl, Bool, false, not, ◌||◌, List, [], Option, none, some, arith, if◌then◌else◌,
}
use libight.Prelude.Bytes.{Bytes, codes, beq}
use libight.Http.ResponseParser.{Response}
use libight.Net.Address.{is_set}
use libight.Ooni.WebConnectivity.Document.{
  Lookups, Control, Entry, Blocking, undecided, not_blocked, blocked_by, consistent, inconsistent,
}
use libight.Ooni.WebConnectivity.Compare.{
  addresses_consistent, compare_dns_queries, compare_tcp_connect, compare_http_requests,
}
use libight.Ooni.WebConnectivity.{
  page_matches, first_word, with_failures, after_dns, judge, compare_control_experiment, is_failed,
  expected_page, blocking_reason, decide,
}

-- Why the page is blocked, if it is, where neither request failed: from what is known of the
-- addresses, the connections, the page and the control's DNS lookup.
abbrev pub verdict : Bool → Bool → Bool → Bool → Option Bytes
verdict dns_consistent tcp_success expected dns_failed =
    if expected
    then none
    else if not dns_consistent
    then some (codes "dns")
    else if tcp_success
    then some (codes "http-diff")
    else if dns_failed
    then some (codes "dns")
    else none

abbrev pub blocking_of : Option Bytes → Blocking
blocking_of none = not_blocked
blocking_of (some reason) = blocked_by reason

abbrev pub with_verdict : Entry → Option Bytes → Entry
with_verdict e v = record e { accessible = some (not (is_set v)); blocking = blocking_of v }

decide_lem :
    (e : Entry) (v : Option Bytes) → e.blocking ≡ undecided → decide e v ≡ some (with_verdict e v)
unfolding decide
decide_lem e none u = rw u refl
decide_lem e (some reason) u = refl

reason_lem : (c t x f : Bool) → blocking_reason c t x [] [] f ≡ verdict c t x f
unfolding blocking_reason beq
reason_lem c t x f = ground arith

judge_lem :
    (e : Entry) (control : Control) (c t x : Bool)
    → e.blocking ≡ undecided
    → page_matches e ≡ some x
    → judge e control c t [] [] (expected_page e [] [])
      ≡ some (with_verdict e (verdict c t x (is_failed control.dns_failure)))
unfolding judge expected_page beq
judge_lem e control c t x u p =
    rw (p, reason_lem c t x (is_failed control.dns_failure))
      (decide_lem e (verdict c t x (is_failed control.dns_failure)) u)

no_word : (f : Option Bytes) → f ≡ none → first_word f ≡ some []
unfolding first_word
no_word f h = rw h refl

after_dns_lem :
    (e : Entry) (control : Control) (c x : Bool)
    → e.http_experiment_failure ≡ none
    → control.http_failure ≡ none
    → e.blocking ≡ undecided
    → page_matches e ≡ some x
    → let compared = compare_tcp_connect control.tcp_connect e.tcp_connect in
      after_dns e control (some c)
      ≡ some (
          with_verdict
            (record e {
              dns_consistency = some (if c then consistent else inconsistent);
              tcp_connect = compared.0;
            })
            (verdict c compared.1 x (is_failed control.dns_failure)))
unfolding after_dns with_failures page_matches
after_dns_lem e control c x f g u p =
    rw (no_word e.http_experiment_failure f, no_word control.http_failure g)
      (judge_lem
        (record e {
          dns_consistency = some (if c then consistent else inconsistent);
          tcp_connect = (compare_tcp_connect control.tcp_connect e.tcp_connect).0;
        })
        control c (compare_tcp_connect control.tcp_connect e.tcp_connect).1 x u p)

not_failed : (f : Option Bytes) → f ≡ none → is_failed f ≡ false
unfolding is_failed
not_failed f h = rw h refl

dns_lem :
    (l : Lookups) (address : Bytes) (addresses : List Bytes) (control : Control) (f : Option Bytes)
    → f ≡ none
    → compare_dns_queries l address f addresses control
      ≡ some (l.is_ip_addr address || addresses_consistent l addresses control.addrs)
unfolding compare_dns_queries
dns_lem l address addresses control f h = rw h (ground arith)

-- Where neither the experiment's nor the control's requests failed and the JSON entry is new, the
-- comparison gives the verdict from whether the addresses are consistent, the connections worked
-- where the control's did, the page has the status and one feature of the control's page, and
-- the control's DNS lookup failed.
pub compare_control_experiment_lem :
    (l : Lookups) (r : Response) (address : Bytes) (addresses : List Bytes) (control : Control)
    (e : Entry) (x : Bool)
    → e.control_failure ≡ none
    → e.http_experiment_failure ≡ none
    → e.dns_experiment_failure ≡ none
    → control.http_failure ≡ none
    → e.blocking ≡ undecided
    → page_matches (compare_http_requests l (some r) control e) ≡ some x
    → let compared = compare_tcp_connect control.tcp_connect e.tcp_connect in
      let c = l.is_ip_addr address || addresses_consistent l addresses control.addrs in
      compare_control_experiment l (some r) address addresses control e
      ≡ some (
          with_verdict
            (record (compare_http_requests l (some r) control e) {
              dns_consistency = some (if c then consistent else inconsistent);
              tcp_connect = compared.0;
            })
            (verdict c compared.1 x (is_failed control.dns_failure)))
unfolding compare_control_experiment compare_http_requests
compare_control_experiment_lem l r address addresses control e x f1 f2 f3 f4 u p =
    rw
      (
        not_failed e.control_failure f1,
        not_failed e.http_experiment_failure f2,
        not_failed control.http_failure f4,
        dns_lem l address addresses control e.dns_experiment_failure f3,
      )
      (after_dns_lem (compare_http_requests l (some r) control e) control
        (l.is_ip_addr address || addresses_consistent l addresses control.addrs) x f2 f4 u p)
