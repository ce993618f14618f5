-- ===== src/Ndt/Protocol.antt =====
-- ndt/protocol_impl.hpp: the phases of the control connection, but for the tests themselves.
use libight.Prelude.{
  ℕ, zero, suc, ◌+◌, ◌∷◌, List, [], Bool, false, ◌||◌, Option, none, some, ◌==◌, if◌then◌else◌,
  length,
}
use libight.Prelude.Bytes.{Bytes, codes, beq}
use libight.Prelude.Int.{ℤ, pos, negsuc}
use libight.Common.Error.{is_error, same_code, reason, timeout_error}
use libight.Common.Scalar.{lexical_cast_unsigned, lexical_cast_int}
use libight.Common.Text.Split.{split}
use libight.Net.Errors.{eof_error}
use libight.Net.Transport.{Event, data_event, error_event, Reading, read}
use libight.Ndt.Errors.{
  format_extended_login_message_error, write_extended_login_message_error,
  reading_kickoff_message_error, invalid_kickoff_message_error, reading_srv_queue_message_error,
  not_srv_queue_message_error, invalid_srv_queue_message_error, queue_server_fault_error,
  queue_server_busy_error, format_msg_waiting_error, reading_server_version_message_error,
  not_server_version_message_error, reading_tests_id_message_error, not_tests_id_message_error,
  invalid_test_id_error, unknown_test_id_error, reading_results_or_logout_error,
  not_results_or_logout_error, waiting_close_error, data_after_logout_error,
}
use libight.Ndt.Context.{
  Context, Outcome, returns, fails, waits, spins, M, ◌>>=◌, ◌>>◌, pure, fail, check, from_error_or,
  from_option, modify, modify_entry, with_error, attempt,
}
use libight.Ndt.Messages.{
  Json, srv_queue, msg_login, msg_results, msg_logout, await_bytes, take_bytes, read_msg,
  format_msg_extended_login, format_msg_waiting, write, write_noasync, report_lines,
}

-- An upper bound of the bytes that can still be read.
abbrev pub arriving : List Event → ℕ
arriving [] = 0
arriving (data_event d ∷ es) = length d + arriving es
arriving (error_event e ∷ es) = arriving es

abbrev pub available : Context → ℕ
available c = length c.buff + arriving c.incoming

abbrev pub kickoff_message : Bytes
kickoff_message = codes "123456 654321"

unfoldable pub recv_and_ignore_kickoff : M (Unit {0})
recv_and_ignore_kickoff = do
  with_error reading_kickoff_message_error (await_bytes 13)
  s ← take_bytes 13
  check (beq s kickoff_message) invalid_kickoff_message_error

module _ (j : Json) where
  unfoldable pub send_extended_login : ℕ → M (Unit {0})
  send_extended_login test_suite = do
    formatted ← format_msg_extended_login j test_suite
    out ← from_error_or format_extended_login_message_error formatted
    with_error write_extended_login_message_error (write out)

  unfoldable pub answer_heartbeat : M (Unit {0})
  answer_heartbeat = do
    formatted ← format_msg_waiting j
    buff ← from_error_or format_msg_waiting_error formatted
    write_noasync buff

  -- What a wait time asks for; the first argument is another round.
  unfoldable pub on_wait_time : M (Unit {0}) → ℕ → M (Unit {0})
  on_wait_time again wait_time =
      if wait_time == 0
      then pure tt
      else if wait_time == 9977
      then fail queue_server_fault_error
      else if wait_time == 9987 || wait_time == 9999
      then fail queue_server_busy_error
      else if wait_time == 9990
      then answer_heartbeat >> again
      else again

  unfoldable pub wait_in_queue_loop : ℕ → M (Unit {0})
  wait_in_queue_loop zero c = spins
  wait_in_queue_loop (suc fuel) c =
      (do
        m ← with_error reading_srv_queue_message_error (read_msg j)
        check (m.0 == srv_queue) not_srv_queue_message_error
        wait_time ← from_error_or invalid_srv_queue_message_error (lexical_cast_unsigned m.1)
        on_wait_time (wait_in_queue_loop fuel) wait_time)
        c

  -- Each message takes three bytes at least, so this is enough fuel.
  unfoldable pub wait_in_queue : M (Unit {0})
  wait_in_queue c = wait_in_queue_loop (available c + 1) c

  unfoldable pub recv_version : M (Unit {0})
  recv_version = do
    m ← with_error reading_server_version_message_error (read_msg j)
    check (m.0 == msg_login) not_server_version_message_error
    modify_entry (λ e. record e { server_version = some m.1 })

  unfoldable pub recv_tests_id : M (Unit {0})
  recv_tests_id = do
    m ← with_error reading_tests_id_message_error (read_msg j)
    check (m.0 == msg_login) not_tests_id_message_error
    suite ← from_option (split m.1 (codes " "))
    modify (λ c. record c { granted_suite = suite })

  -- The lines of one message of results go into "summary_data".
  unfoldable pub add_results : Bytes → M (Unit {0})
  add_results s c =
      (do
        summary ← report_lines j c.entry.summary_data s
        modify_entry (λ e. record e { summary_data = summary }))
        c

  unfoldable pub on_result : M (Unit {0}) → ℕ × Bytes → M (Unit {0})
  on_result again m =
      if m.0 == msg_results
      then add_results m.1 >> again
      else check (m.0 == msg_logout) not_results_or_logout_error

  unfoldable pub recv_results_loop : ℕ → M (Unit {0})
  recv_results_loop zero c = spins
  recv_results_loop (suc fuel) c =
      (do
        m ← with_error reading_results_or_logout_error (read_msg j)
        on_result (recv_results_loop fuel) m)
        c

  unfoldable pub recv_results_and_logout : M (Unit {0})
  recv_results_and_logout c = recv_results_loop (available c + 1) c

abbrev pub is_num : ℤ → ℕ → Bool
is_num (pos n) k = n == k
is_num (negsuc n) k = false

unfoldable pub id_to_name : ℤ → Bytes
id_to_name id =
    if is_num id 1
    then codes "middlebox"
    else if is_num id 2
    then codes "upload"
    else if is_num id 4
    then codes "download"
    else if is_num id 8
    then codes "simple_firewall"
    else if is_num id 16
    then codes "status"
    else if is_num id 32
    then codes "meta"
    else if is_num id 64
    then codes "upload_ext"
    else if is_num id 128
    then codes "download_ext"
    else codes "unknown"

unfoldable pub put_result : Bytes → Bytes → List (Bytes × Bytes) → List (Bytes × Bytes)
put_result k v [] = (k, v) ∷ []
put_result k v ((i, w) ∷ m) = if beq i k then (k, v) ∷ m else (i, w) ∷ put_result k v m

-- The functions of the three tests that there are.
module _ (c2s meta s2c : M (Unit {0})) where
  unfoldable pub func_of : ℤ → Option (M (Unit {0}))
  func_of num =
      if is_num num 2
      then some c2s
      else if is_num num 32
      then some meta
      else if is_num num 4 || is_num num 128
      then some s2c
      else none

  unfoldable pub run_func : ℤ → Option (M (Unit {0})) → M (Unit {0})
  run_func num none = fail unknown_test_id_error
  run_func num (some func) = do
    failure ← attempt func
    modify_entry (λ e. record e {
      phase_result = put_result (id_to_name num) (reason failure) e.phase_result;
    })

  -- The suite is what `ctx->granted_suite` holds.
  unfoldable pub run_tests_loop : List Bytes → M (Unit {0})
  run_tests_loop [] = pure tt
  run_tests_loop (s ∷ suite) = do
    modify (λ c. record c { granted_suite = suite })
    num ← from_error_or invalid_test_id_error (lexical_cast_int s)
    run_func num (func_of num)
    run_tests_loop suite

  unfoldable pub run_tests : M (Unit {0})
  run_tests c = run_tests_loop c.granted_suite c

-- The callback of the last read, whose buffer is a new one.
unfoldable pub closing : Context → Reading → Outcome (Unit {0})
closing c (Reading.calls e buff es) =
    if same_code e eof_error || same_code e timeout_error
    then returns tt (record c { incoming = es })
    else if is_error e
    then fails (waiting_close_error e) (record c { incoming = es })
    else fails data_after_logout_error (record c { incoming = es })
closing c (Reading.waits buff) = waits (record c { incoming = [] })

unfoldable pub wait_close : M (Unit {0})
unfolding closing
wait_close c = closing c (read [] c.incoming)
