-- ===== src/Tests/CollectorTests.antt =====
-- The client of the collector at concrete inputs.
use libight.Prelude.{◌≡◌, refl, true, false, List, [], ◌∷◌, ◌++◌, some, none}
use libight.Prelude.Bytes.{Bytes, codes, beq}
use libight.Common.Error.{no_error, timeout_error}
use libight.Http.Headers.{Header}
use libight.Ooni.Collector.{
  Json, Request, Exchange, State, base_url, base_url_over, returns, post_request,
}
use libight.Ooni.Collector.Client.{Setup, Report, submit_report}
use libight.Ooni.Collector.Outcomes.{Sat}
use libight.Ooni.Collector.Submission.{Submitted, Settled, Pending, submit_report_lem}

-- A document is a text, of which each key is the text.
abbrev text_json : Json Bytes
text_json = record {
  parse = λ t. some t;
  dump = λ t. some t;
  at_string = λ key t. some t;
  get = λ key t. some t;
  is_null = λ t. beq t [];
  set = λ key v t. v ++ t;
  string = λ t. t;
  empty_array = [];
  object = λ members. codes "{}";
}

abbrev setup : Setup Bytes
setup = record {
  json = text_json;
  patterns = record {
    valid_nettest_name = λ t. true;
    valid_nettest_version = λ t. true;
    valid_probe_asn = λ t. true;
    valid_country_code = λ t. true;
    valid_test_start_time = λ t. true;
  };
  lib = record { inet_pton4 = λ t. false; inet_pton6 = λ t. false; parse_fields = λ c t. none };
  settings = record {
    collector_base_url = some (codes "https://c");
    collector_front_domain = none;
  };
}

abbrev base : Bytes × List Header
base = (codes "https://c", [])

base_url-base : (s : State) → base_url setup.lib setup.settings s ≡ returns base s
unfolding base_url base_url_over
base_url-base s = refl

abbrev created : Exchange
created = record { failure = no_error; status_code = 201; body = codes "id" }

abbrev fine : Exchange
fine = record { failure = no_error; status_code = 200; body = [] }

abbrev before : List Exchange → State
before es = record {
  connect_error = no_error;
  exchanges = es;
  requests = [];
  connections = 0;
  closed = 0;
}

abbrev one_line : Report
one_line = record { good = true; lines = codes "x" ∷ []; broken = false }

abbrev cut_off : List Exchange
cut_off = created ∷ record { failure = timeout_error; status_code = 0; body = [] } ∷ []

submit_report_lem_example :
    Sat
      (λ _ t. Submitted setup base base_url-base one_line (before cut_off) t)
      (Settled setup base base_url-base (before cut_off))
      (Pending setup base base_url-base (before cut_off))
      (submit_report setup one_line (before cut_off))
submit_report_lem_example = submit_report_lem setup base base_url-base one_line (before cut_off)

abbrev update : Request
update = post_request base (codes "/report/id") (codes "{}")
