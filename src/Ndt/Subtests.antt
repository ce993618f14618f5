-- ===== src/Ndt/Subtests.antt =====
-- The tests that the server may ask for: ndt/test_meta_impl.hpp, ndt/test_c2s_impl.hpp and
-- ndt/test_s2c_impl.hpp. The coroutines that connect to the test port and measure are left to a
-- `Flow`, the next one of the context.
use libight.Prelude.{
  ℕ, zero, suc, ◌+◌, ◌∷◌, List, [], ◌++◌, Bool, true, not, ◌||◌, Option, none, some, ltb, ◌==◌,
  if◌then◌else◌, get_elem?,
}
use libight.Prelude.Bytes.{Bytes, codes, beq}
use libight.Prelude.Int.{ℤ, pos, negsuc}
use libight.Common.Error.{Error, ErrorOr, ok, err, is_error, reason}
use libight.Common.Scalar.{lexical_cast_int}
use libight.Common.Text.Split.{split}
use libight.Ndt.Errors.{
  reading_test_prepare_error, not_test_prepare_error, reading_test_start_error,
  not_test_start_error, reading_test_msg_error, not_test_msg_error, reading_test_finalize_error,
  not_test_finalize_error, serializing_client_version_error, serializing_client_application_error,
  serializing_final_meta_error, writing_meta_error, serializing_test_msg_error,
  writing_test_msg_error, invalid_port_error, connect_test_connection_error, invalid_duration_error,
  invalid_snaps_delay_error, invalid_num_streams_error,
}
use libight.Ndt.Context.{
  Context, Params, S2cEntry, Flow, Outcome, returns, waits, spins, M, ◌>>=◌, ◌>>◌, pure, fail,
  fault, check, from_error_or, from_option, modify_entry, with_error,
}
use libight.Ndt.Messages.{
  Json, test_prepare, test_start, test_msg, test_finalize, read_json, read_msg, format_test_msg,
  write, write_noasync, report_lines,
}
use libight.Ndt.Protocol.{available}

-- The settings that the tests read.
pub record Settings : Type 0 where
  pub software_version : Bytes
  pub software_name : Bytes

abbrev pub is_invalid_port : ℤ → Bool
is_invalid_port (pos n) = ltb 65535 n
is_invalid_port (negsuc n) = true

unfoldable pub port_of : ErrorOr ℤ → M ℤ
port_of (err e) = fail invalid_port_error
port_of (ok port) = if is_invalid_port port then fail invalid_port_error else pure port

-- A connection is started; the flow tells how it goes.
unfoldable pub flow_taken : Context → List Flow → Outcome Flow
flow_taken c [] = waits c
flow_taken c (f ∷ fs) = returns f (record c { flows = fs })

unfoldable pub start_flow : ℤ → ℤ → M Flow
unfolding flow_taken
start_flow port num_streams c =
    flow_taken (record c { started = c.started ++ (port, num_streams) ∷ [] }) c.flows

unfoldable pub connected : Flow → M (Unit {0})
connected f = check (not (is_error f.connect_error)) (connect_test_connection_error f.connect_error)

unfoldable pub completed : Error → M (Unit {0})
completed e = check (not (is_error e)) e

-- What the upload makes of a broken pipe.
unfoldable pub tolerated : Error → M (Unit {0})
tolerated e = check (not (is_error e) || beq (reason e) (codes "broken_pipe")) e

module _ (j : Json) where
  -- A message that has to be of a type.
  unfoldable pub expect : (Error → Error) → ℕ → Error → M Bytes
  expect reading type other = do
    m ← with_error reading (read_msg j)
    check (m.0 == type) other
    pure m.1

  unfoldable pub serialized : Error → Bytes → M Bytes
  serialized failure s = do out ← format_test_msg j s; from_error_or (λ _. failure) out

  unfoldable pub run_meta : Settings → M (Unit {0})
  run_meta settings = do
    expect reading_test_prepare_error test_prepare not_test_prepare_error
    expect reading_test_start_error test_start not_test_start_error
    version ←
        serialized serializing_client_version_error
          (codes "client.version:" ++ settings.software_version)
    write_noasync version
    application ←
        serialized serializing_client_application_error
          (codes "client.application:" ++ settings.software_name)
    write_noasync application
    final ← serialized serializing_final_meta_error []
    with_error writing_meta_error (write final)
    expect reading_test_finalize_error test_finalize not_test_finalize_error
    pure tt

  unfoldable pub run_c2s : M (Unit {0})
  run_c2s = do
    s ← expect reading_test_prepare_error test_prepare not_test_prepare_error
    port ← port_of (lexical_cast_int s)
    flow ← start_flow port (pos 1)
    connected flow
    expect reading_test_start_error test_start not_test_start_error
    tolerated flow.end_error
    speed ← expect reading_test_msg_error test_msg not_test_msg_error
    modify_entry (λ e. record e {
      test_c2s = e.test_c2s ++ (if j.is_double speed then some speed else none) ∷ [];
    })
    expect reading_test_finalize_error test_finalize not_test_finalize_error
    pure tt

-- `vec[0]`; there is none in a text without words.
unfoldable pub first_word : List Bytes → M Bytes
first_word [] = fault
first_word (s ∷ vec) = pure s

unfoldable pub duration_of : Json → Option Bytes → M (Option Bytes)
duration_of j none = pure none
duration_of j (some s) =
    if not (j.is_double s) || j.is_below s 0 || j.is_above s 60000
    then fail invalid_duration_error
    else pure (some s)

unfoldable pub snaps_delay_of : Json → Option Bytes → M (Option Bytes)
snaps_delay_of j none = pure none
snaps_delay_of j (some s) =
    if not (j.is_double s) || j.is_below s 250
    then fail invalid_snaps_delay_error
    else pure (some s)

abbrev pub is_invalid_num_streams : ℤ → Bool
is_invalid_num_streams (pos n) = ltb n 1 || ltb 8 n
is_invalid_num_streams (negsuc n) = true

unfoldable pub num_streams_read : ErrorOr ℤ → M ℤ
num_streams_read (err e) = fail invalid_num_streams_error
num_streams_read (ok n) =
    if is_invalid_num_streams n then fail invalid_num_streams_error else pure n

unfoldable pub num_streams_of : Option Bytes → M ℤ
unfolding num_streams_read
num_streams_of none = pure (pos 1)
num_streams_of (some s) = num_streams_read (lexical_cast_int s)

-- The words of the message that prepares the test.
unfoldable pub params_of : Json → List Bytes → M Params
params_of j vec = do
  word ← first_word vec
  port ← port_of (lexical_cast_int word)
  duration ← duration_of j (get_elem? vec 1)
  snaps_delay ← snaps_delay_of j (get_elem? vec 3)
  num_streams ← num_streams_of (get_elem? vec 5)
  pure (record {
    port = port;
    duration = duration;
    snaps_delay = snaps_delay;
    num_streams = num_streams;
  })

module _ (j : Json) where
  unfoldable pub on_final : (S2cEntry → M (Unit {0})) → S2cEntry → ℕ × Bytes → M (Unit {0})
  on_final again cur_entry m =
      if m.0 == test_finalize
      then modify_entry (λ e. record e { test_s2c = e.test_s2c ++ cur_entry ∷ [] })
      else (do
        check (m.0 == test_msg) not_test_msg_error
        web100_data ← report_lines j cur_entry.web100_data m.1
        again (record cur_entry { web100_data = web100_data }))

  unfoldable pub finalizing_test_loop : ℕ → S2cEntry → M (Unit {0})
  finalizing_test_loop zero cur_entry c = spins
  finalizing_test_loop (suc fuel) cur_entry c =
      (do
        m ← with_error reading_test_msg_error (read_msg j)
        on_final (finalizing_test_loop fuel) cur_entry m)
        c

  unfoldable pub finalizing_test : S2cEntry → M (Unit {0})
  finalizing_test cur_entry c = finalizing_test_loop (available c + 1) cur_entry c

  unfoldable pub run_s2c : M (Unit {0})
  run_s2c = do
    s ← expect j reading_test_prepare_error test_prepare not_test_prepare_error
    vec ← from_option (split s (codes " "))
    params ← params_of j vec
    flow ← start_flow params.port params.num_streams
    connected flow
    expect j reading_test_start_error test_start not_test_start_error
    completed flow.end_error
    m ← with_error reading_test_msg_error (read_json j)
    check (m.0 == test_msg) not_test_msg_error
    out ← serialized j serializing_test_msg_error flow.speed
    with_error writing_test_msg_error (write out)
    finalizing_test (record { params = params; web100_data = [] })
