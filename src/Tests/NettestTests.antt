-- ===== src/Tests/NettestTests.antt =====
-- nettests/ at concrete inputs.
use libight.Prelude.{
  ◌≡◌, ◌≢◌, refl, ℕ, zero, suc, true, false, [], ◌∷◌, ◌++◌, some, none, arith, All,
}
use libight.Prelude.Bytes.{Bytes, codes, beq}
use libight.Common.Error.{no_error, ok, err, value_error}
use libight.Nettests.Measurements.{
  Settings, measuring, ended, State, start, take_input, run_next_measurement, on_test_keys,
  on_written, next_measurement, test_keys, written, Reach, here, next,
}
use libight.Nettests.Measurements.Invariant.{is_submitted, IsOnce, IsOwn}
use libight.Nettests.Measurements.Once.{Reach-IsOnce, Reach-is_submitted}
use libight.Nettests.Bouncer
use libight.Nettests.Bouncer.{BouncerReply, has_option, query_bouncer}
use libight.Nettests.Bouncer.Keeps.{query_bouncer_keeps}
use libight.Nettests.Inputs.{
  Files, open_error, read_files, process_input_filepaths, with_files, shuffled,
}
use libight.Nettests.Geoip.{geoip_lookup, resolve}

abbrev settings : Settings
settings = record { no_collector = false; ignore_write_entry_error = true }

abbrev first : State
first = start 1 (codes "a" ∷ [])

abbrev second : State
second = run_next_measurement 0 false first

abbrev third : State
third = on_test_keys 0 0 (codes "a") second

abbrev fourth : State
fourth = on_written settings 0 0 no_error third

abbrev fifth : State
fifth = run_next_measurement 0 false fourth

-- One run that measures one input and ends.
reached : Reach settings first fifth
unfolding run_next_measurement take_input on_test_keys on_written
reached =
    next
      (next (next (next here (next_measurement 0 false refl)) (test_keys 0 0 (codes "a") refl))
        (written 0 0 (codes "a") no_error refl))
      (next_measurement 0 false refl)

fifth-ended : fifth.runs 0 ≡ ended no_error
unfolding run_next_measurement take_input on_test_keys on_written
fifth-ended = refl

fifth_whole : fifth.cut_short ≡ false
unfolding run_next_measurement take_input on_test_keys on_written
fifth_whole = refl

none_measuring : (k : ℕ) (x : Bytes) → fifth.runs k ≢ measuring 0 x
unfolding run_next_measurement take_input on_test_keys on_written
none_measuring zero x h = absurd (ground arith)
none_measuring (suc k) x h = absurd (ground arith)

Reach-IsOnce_example :
    (fifth.started ++ fifth.inputs ≡ codes "a" ∷ [])
    × IsOnce fifth.submitted
    × IsOwn (codes "a" ∷ []) fifth.submitted
Reach-IsOnce_example = Reach-IsOnce settings 1 (codes "a" ∷ []) {s = fifth} reached

Reach-is_submitted_example : is_submitted 0 fifth.submitted ≡ true
Reach-is_submitted_example =
    Reach-is_submitted settings 1 (codes "a" ∷ []) {s = fifth} 0 0 no_error reached fifth-ended
      fifth_whole none_measuring (omega arith)

abbrev reply : BouncerReply
reply = record {
  get_collector_alternate = λ type. ok (codes "https://b");
  get_test_helper = λ name. err value_error;
  get_test_helper_alternate = λ name type. ok (codes "https://c");
}

abbrev given : Bouncer.State
given = record { options = (codes "backend", codes "mine") ∷ []; failures = [] }

query_bouncer_keeps_example :
    (extra : Bouncer.Options) × ((query_bouncer true
        (ok false)
        ((codes "web", codes "backend") ∷ [])
        (ok reply)
        given).0.options
      ≡ given.options ++ extra)
    × All (λ m. has_option m.0 given.options ≡ false) extra
query_bouncer_keeps_example =
    query_bouncer_keeps true (ok false) ((codes "web", codes "backend") ∷ []) (ok reply) given

-- One of two files can be opened.
abbrev files : Files
files = record {
  open_file = λ path.
      (let here = beq path (codes "it.txt") in
        record { good = here; lines = codes "x" ∷ codes "y" ∷ []; eof = true });
  replace_probe_cc = λ path cc. cc ++ path;
  randomize_input = λ l. l;
}

two_files :
    process_input_filepaths files true
      (codes ".txt" ∷ codes ".csv" ∷ [])
      (codes "IT")
      (ok true)
      (record { inputs = []; reports = [] })
    ≡ (
      record { inputs = codes "x" ∷ codes "y" ∷ []; reports = open_error (codes "it.csv") ∷ [] },
      no_error,
    )
unfolding process_input_filepaths with_files read_files shuffled beq
two_files = refl

-- The address is looked up and kept out of the entry, the country was given.
located :
    (geoip_lookup
      (record {
        save_real_probe_ip = false;
        save_real_probe_asn = true;
        save_real_probe_cc = true;
        save_real_probe_network_name = true;
        no_geoip = false;
        probe_ip = none;
        probe_cc = some (codes "IT");
        probe_asn = none;
        probe_network_name = none;
      })
      (record {
        ip = some (codes "1.2.3.4");
        cc = λ ip. none;
        asn = λ ip. none;
        org = λ ip. some ip;
      }))
    ≡ record {
      probe_ip = codes "127.0.0.1";
      probe_cc = codes "IT";
      probe_asn = codes "AS0";
      probe_network_name = codes "1.2.3.4";
      annotations = codes "failure_asn_lookup" ∷ [];
      event = some (codes "AS0", codes "IT", codes "1.2.3.4", codes "1.2.3.4");
      real_probe_ip = codes "1.2.3.4";
    }
unfolding geoip_lookup resolve beq
located = refl
