-- ===== src/Ndt/Run.antt =====
-- `run_with_specific_server_impl` of ndt/run_impl.hpp, `connect_impl` and
-- `disconnect_and_callback_impl` of ndt/protocol_impl.hpp.
use Prim.Native.Nat.{bit_or}
use libight.Prelude.{ℕ, List, [], Bool, true, false, none}
use libight.Common.Error.{Error, is_error, no_error}
use libight.Net.Transport.{Event}
use libight.Ndt.Errors.{connect_control_connection_error}
use libight.Ndt.Context.{
  Context, Entry, Flow, Outcome, returns, fails, waits, faults, spins, M, ◌>>◌,
}
use libight.Ndt.Messages.{Json}
use libight.Ndt.Protocol.{
  send_extended_login, recv_and_ignore_kickoff, wait_in_queue, recv_version, recv_tests_id,
  run_tests, recv_results_and_logout, wait_close,
}
use libight.Ndt.Subtests.{Settings, run_meta, run_c2s, run_s2c}

-- `TEST_STATUS | TEST_META`, and what the setting "test_suite" adds.
unfoldable pub test_suite_of : ℕ → ℕ
test_suite_of setting = bit_or 48 setting

-- The entry, when the routine has set its keys.
abbrev pub empty_entry : Entry
empty_entry = record {
  server_version = none;
  summary_data = [];
  test_c2s = [];
  test_s2c = [];
  phase_result = [];
}

-- What the control connection and the test connections are going to give.
pub record World : Type 0 where
  pub connect_error : Error
  pub incoming : List Event
  pub flushes : List Error
  pub flows : List Flow

abbrev pub new_context : World → Context
new_context w = record {
  buff = [];
  incoming = w.incoming;
  flushes = w.flushes;
  written = [];
  flows = w.flows;
  started = [];
  granted_suite = [];
  entry = empty_entry;
}

module _ (j : Json) (settings : Settings) where
  -- The phases from the login to the logout.
  unfoldable pub conversation : ℕ → M (Unit {0})
  conversation test_suite = do
    send_extended_login j test_suite
    recv_and_ignore_kickoff
    wait_in_queue j
    recv_version j
    recv_tests_id j
    run_tests (run_c2s j) (run_meta j settings) (run_s2c j)
    recv_results_and_logout j

  unfoldable pub session : ℕ → M (Unit {0})
  session test_suite = do conversation test_suite; wait_close

-- How a run ends: the callback is called, with the error and the entry, after the connection was
-- closed if there is one; or it waits for the connection for good.
pub data Ending : Type 0 where
  calls_back : Error → Bool → Context → Ending
  waiting : Context → Ending
  faulted : Ending
  spinning : Ending

unfoldable pub disconnect_and_callback : Outcome (Unit {0}) → Ending
disconnect_and_callback (returns tt c) = calls_back no_error true c
disconnect_and_callback (fails e c) = calls_back e true c
disconnect_and_callback (waits c) = waiting c
disconnect_and_callback faults = faulted
disconnect_and_callback spins = spinning

unfoldable pub run_with_specific_server : Json → Settings → ℕ → World → Ending
run_with_specific_server j settings setting w = elim (is_error w.connect_error) [
  | true ↦ calls_back (connect_control_connection_error w.connect_error) false (new_context w)
  | false ↦ disconnect_and_callback (session j settings (test_suite_of setting) (new_context w))
]
