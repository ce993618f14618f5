-- ===== src/Ndt/Cutting/Phases.antt =====
-- The phases of the control connection depend on the bytes that arrive only, and end.
use libight.Prelude.{
  ℕ, zero, suc, Bool, true, false, ◌||◌, List, [], ◌∷◌, arith, none, some, if◌then◌else◌, ◌==◌,
}
use libight.Prelude.Bytes.{Bytes, codes}
use libight.Prelude.Int.{ℤ}
use libight.Common.Error.{Error, reason}
use libight.Common.Scalar.{lexical_cast_unsigned, lexical_cast_int}
use libight.Ndt.Errors.{
  queue_server_fault_error, queue_server_busy_error, unknown_test_id_error,
  not_results_or_logout_error,
}
use libight.Ndt.Context.{Entry, M, ◌>>=◌, modify_entry, with_error}
use libight.Ndt.Messages.{
  Json, msg_results, msg_logout, read_msg, format_msg_extended_login, format_msg_waiting, write,
  report_lines,
}
use libight.Ndt.Protocol.{
  recv_and_ignore_kickoff, send_extended_login, answer_heartbeat, on_wait_time, wait_in_queue_loop,
  wait_in_queue, recv_version, recv_tests_id, add_results, on_result, recv_results_loop,
  recv_results_and_logout, is_num, id_to_name, put_result, func_of, run_func, run_tests_loop,
  run_tests,
}
use libight.Ndt.Cutting.{
  Steady, Agree-weaken, bind-Steady, then-Steady, pure-Steady, fail-Steady, check-Steady,
  from_error_or-Steady, modify_entry-Steady, with_error-Takes, attempt-Steady, looking-Steady,
}
use libight.Ndt.Cutting.Reads.{awaited_bytes-Steady, read_msg-Takes}
use libight.Ndt.Cutting.Steps.{
  Ends, round-Agree, Steady-Ends, if-Ends, bind-Ends, then-Ends, fueled-Steady, suite-Steady,
  split-Steady, formatted-Steady, write_noasync-Steady, write-Steady, report_lines-Steady,
}

pub recv_and_ignore_kickoff-Steady : Steady recv_and_ignore_kickoff
unfolding recv_and_ignore_kickoff
recv_and_ignore_kickoff-Steady = awaited_bytes-Steady 13 _ _ (λ s. check-Steady _ _)

module _ (j : Json) where
  pub send_extended_login-Steady : (suite : ℕ) → Steady (send_extended_login j suite)
  unfolding send_extended_login format_msg_extended_login
  send_extended_login-Steady suite = bind-Steady _ _ (formatted-Steady _ _) λ formatted.
      bind-Steady _ _ (from_error_or-Steady _ formatted)
        λ out. with_error-Takes 0 _ (write out) (write-Steady out)

  answer_heartbeat-Steady : Steady (answer_heartbeat j)
  unfolding answer_heartbeat format_msg_waiting
  answer_heartbeat-Steady = bind-Steady _ _ (formatted-Steady _ _) λ formatted.
      bind-Steady _ _ (from_error_or-Steady _ formatted) λ buff. write_noasync-Steady buff

  on_wait_time-Ends :
      (fuel : ℕ) (again : M (Unit {0})) (t : ℕ)
      → Ends fuel again
      → Ends fuel (on_wait_time j again t)
  unfolding on_wait_time
  on_wait_time-Ends fuel again t h =
      if-Ends fuel (t == 0) _ _ (Steady-Ends fuel _ (pure-Steady tt)) (
        if-Ends fuel (t == 9977) _ _ (Steady-Ends fuel _ (fail-Steady queue_server_fault_error)) (
          if-Ends fuel (t == 9987 || t == 9999) _ _
            (Steady-Ends fuel _ (fail-Steady queue_server_busy_error))
            (if-Ends fuel (t == 9990) _ _ (then-Ends fuel _ again answer_heartbeat-Steady h) h)))

  wait_in_queue_loop-Ends : (fuel : ℕ) → Ends fuel (wait_in_queue_loop j fuel)
  unfolding wait_in_queue_loop
  wait_in_queue_loop-Ends zero c d s h = absurd (omega arith)
  wait_in_queue_loop-Ends (suc fuel) c d s h =
      round-Agree fuel _ _ (with_error-Takes 3 _ (read_msg j) (read_msg-Takes j))
        (λ m. then-Ends fuel _ _ (check-Steady _ _) (
          bind-Ends fuel _ _ (from_error_or-Steady _ (lexical_cast_unsigned m.1))
            λ t. on_wait_time-Ends fuel _ t (wait_in_queue_loop-Ends fuel)))
        c d s h

  pub wait_in_queue-Steady : Steady (wait_in_queue j)
  unfolding wait_in_queue
  wait_in_queue-Steady = fueled-Steady (wait_in_queue_loop j) wait_in_queue_loop-Ends

  read_msg-Steady : (g : Error → Error) → Steady (with_error g (read_msg j))
  read_msg-Steady g =
      with_error-Takes 0 g (read_msg j)
        (λ c d s. Agree-weaken 3 0 _ _ (read_msg-Takes j c d s) (omega arith) (omega arith))

  pub recv_version-Steady : Steady (recv_version j)
  unfolding recv_version
  recv_version-Steady =
      bind-Steady _ _ (read_msg-Steady _)
        λ m. then-Steady _ _ (check-Steady _ _) (modify_entry-Steady _)

  pub recv_tests_id-Steady : Steady (recv_tests_id j)
  unfolding recv_tests_id
  recv_tests_id-Steady = bind-Steady _ _ (read_msg-Steady _) λ m.
      then-Steady _ _ (check-Steady _ _)
        (bind-Steady _ _ (split-Steady m.1 (codes " ")) suite-Steady)

  add_results-Steady : (s : Bytes) → Steady (add_results j s)
  unfolding add_results
  add_results-Steady s =
      looking-Steady
        (λ (e : Entry). report_lines j e.summary_data s >>= λ summary.
          modify_entry (λ e'. record e' { summary_data = summary }))
        (λ c. c.entry) (λ c d s'. s'.entry_same)
        (λ e.
          bind-Steady _ _ (report_lines-Steady j e.summary_data s)
            (λ summary. modify_entry-Steady _))

  recv_results_loop-Ends : (fuel : ℕ) → Ends fuel (recv_results_loop j fuel)
  unfolding recv_results_loop on_result
  recv_results_loop-Ends zero c d s h = absurd (omega arith)
  recv_results_loop-Ends (suc fuel) c d s h =
      round-Agree fuel _ _ (with_error-Takes 3 _ (read_msg j) (read_msg-Takes j))
        (λ m.
          if-Ends fuel (m.0 == msg_results) _ _
            (then-Ends fuel _ _ (add_results-Steady m.1) (recv_results_loop-Ends fuel))
            (Steady-Ends fuel _ (check-Steady (m.0 == msg_logout) not_results_or_logout_error)))
        c d s h

  pub recv_results_and_logout-Steady : Steady (recv_results_and_logout j)
  unfolding recv_results_and_logout
  recv_results_and_logout-Steady = fueled-Steady (recv_results_loop j) recv_results_loop-Ends

put_result_entry-Steady :
    (num : ℤ) (failure : Error)
    → Steady (
        modify_entry (λ e. record e {
          phase_result = put_result (id_to_name num) (reason failure) e.phase_result;
        }))
put_result_entry-Steady num failure = modify_entry-Steady _

module _ (c2s meta s2c : M (Unit {0})) (hc : Steady c2s) (hm : Steady meta) (hs : Steady s2c) where
  run_func-Steady : (num : ℤ) → Steady (run_func c2s meta s2c num (func_of c2s meta s2c num))
  unfolding run_func func_of
  run_func-Steady num = choice (is_num num 2) (is_num num 32) (is_num num 4 || is_num num 128)
    where
      one : (func : M (Unit {0})) → Steady func → Steady (run_func c2s meta s2c num (some func))
      one func h = bind-Steady _ _ (attempt-Steady func h) (put_result_entry-Steady num)

      choice :
          (x y z : Bool)
          → Steady (
              run_func c2s meta s2c num
                (if x then some c2s else if y then some meta else if z then some s2c else none))
      choice true y z = one c2s hc
      choice false true z = one meta hm
      choice false false true = one s2c hs
      choice false false false = fail-Steady unknown_test_id_error

  run_tests_loop-Steady : (suite : List Bytes) → Steady (run_tests_loop c2s meta s2c suite)
  unfolding run_tests_loop
  run_tests_loop-Steady [] = pure-Steady tt
  run_tests_loop-Steady (s ∷ suite) = then-Steady _ _ (suite-Steady suite) (
      bind-Steady _ _ (from_error_or-Steady _ (lexical_cast_int s))
        λ num. then-Steady _ _ (run_func-Steady num) (run_tests_loop-Steady suite))

  pub run_tests-Steady : Steady (run_tests c2s meta s2c)
  unfolding run_tests
  run_tests-Steady =
      looking-Steady (run_tests_loop c2s meta s2c) (λ c. c.granted_suite) (λ c d s. s.suite_same)
        run_tests_loop-Steady
