-- ===== src/Ndt/Cutting/Subtests.antt =====
-- The tests depend on the bytes that arrive only, and end.
use libight.Prelude.{
  ℕ, zero, suc, ◌≡◌, refl, ap, not, ◌||◌, List, [], ◌∷◌, ◌++◌, arith, Option, none, some, ◌==◌,
  get_elem?,
}
use libight.Prelude.Bytes.{Bytes, codes}
use libight.Prelude.Int.{ℤ, pos}
use libight.Common.Error.{Error, ErrorOr, ok, err}
use libight.Common.Scalar.{lexical_cast_int}
use libight.Ndt.Errors.{
  invalid_port_error, invalid_duration_error, invalid_snaps_delay_error, invalid_num_streams_error,
  not_test_msg_error,
}
use libight.Ndt.Context.{Context, S2cEntry, Flow, with_error}
use libight.Ndt.Messages.{Json, test_finalize, test_msg, read_json, read_msg, write}
use libight.Ndt.Protocol.{available}
use libight.Ndt.Subtests.{
  Settings, is_invalid_port, port_of, flow_taken, start_flow, connected, completed, tolerated,
  expect, serialized, run_meta, run_c2s, first_word, duration_of, snaps_delay_of,
  is_invalid_num_streams, num_streams_read, num_streams_of, params_of, on_final,
  finalizing_test_loop, finalizing_test, run_s2c,
}
use libight.Ndt.Cutting.{
  Same, Agree, both_return, both_wait, Steady, Agree-weaken, bind-Steady, then-Steady, pure-Steady,
  fail-Steady, fault-Steady, if-Steady, check-Steady, from_error_or-Steady, modify_entry-Steady,
  with_error-Takes,
}
use libight.Ndt.Cutting.Reads.{read_json-Takes, read_msg-Takes}
use libight.Ndt.Cutting.Steps.{
  Ends, round-Agree, Steady-Ends, if-Ends, then-Ends, bind-Ends, fueled-Steady, split-Steady,
  write_noasync-Steady, write-Steady, format_test_msg-Steady, report_lines-Steady,
}

port_of-Steady : (r : ErrorOr ℤ) → Steady (port_of r)
unfolding port_of
port_of-Steady (err e) = fail-Steady invalid_port_error
port_of-Steady (ok p) =
    if-Steady (is_invalid_port p) _ _ (fail-Steady invalid_port_error) (pure-Steady p)

started-Same :
    (c d : Context) (p n : ℤ) (fs : List Flow)
    → Same c d
    → Same
        (record c { started = c.started ++ (p, n) ∷ []; flows = fs })
        (record d { started = d.started ++ (p, n) ∷ []; flows = fs })
started-Same c d p n fs s = record {
  items_same = s.items_same;
  real = s.real;
  flushes_same = s.flushes_same;
  written_same = s.written_same;
  flows_same = refl;
  started_same = ap (λ l. l ++ (p, n) ∷ []) s.started_same;
  suite_same = s.suite_same;
  entry_same = s.entry_same;
}

start_flow-Agree :
    (p n : ℤ) (c d : Context) (fs fs' : List Flow)
    → fs ≡ fs'
    → Same c d
    → Agree 0
        (available c)
        (flow_taken (record c { started = c.started ++ (p, n) ∷ []; flows = fs }) fs)
        (flow_taken (record d { started = d.started ++ (p, n) ∷ []; flows = fs' }) fs')
unfolding flow_taken
start_flow-Agree p n c d fs [] e s = rw e (both_wait (started-Same c d p n [] s))
start_flow-Agree p n c d fs (f ∷ fs') e s =
    rw e (both_return f (started-Same c d p n fs' s) (omega arith))

start_flow-Steady : (p n : ℤ) → Steady (start_flow p n)
unfolding start_flow
start_flow-Steady p n c d s = start_flow-Agree p n c d c.flows d.flows s.flows_same s

module _ (j : Json) where
  expect-Steady : (g : Error → Error) (type : ℕ) (e : Error) → Steady (expect j g type e)
  unfolding expect
  expect-Steady g type e =
      bind-Steady _ _ (message-Steady g)
        λ m. then-Steady _ _ (check-Steady (m.0 == type) e) (pure-Steady m.1)
    where
      message-Steady : (g : Error → Error) → Steady (with_error g (read_msg j))
      message-Steady g =
          with_error-Takes 0 g (read_msg j)
            (λ c d s. Agree-weaken 3 0 _ _ (read_msg-Takes j c d s) (omega arith) (omega arith))

  document-Steady : (g : Error → Error) → Steady (with_error g (read_json j))
  document-Steady g =
      with_error-Takes 0 g (read_json j)
        (λ c d s. Agree-weaken 3 0 _ _ (read_json-Takes j c d s) (omega arith) (omega arith))

  serialized-Steady : (e : Error) (s : Bytes) → Steady (serialized j e s)
  unfolding serialized
  serialized-Steady e s =
      bind-Steady _ _ (format_test_msg-Steady j s) (λ out. from_error_or-Steady _ out)

  pub run_meta-Steady : (settings : Settings) → Steady (run_meta j settings)
  unfolding run_meta
  run_meta-Steady settings = then-Steady _ _ (expect-Steady _ _ _) (
      then-Steady _ _ (expect-Steady _ _ _) (
        bind-Steady _ _ (serialized-Steady _ _) λ version.
          then-Steady _ _ (write_noasync-Steady version) (
            bind-Steady _ _ (serialized-Steady _ _) λ application.
              then-Steady _ _ (write_noasync-Steady application) (
                bind-Steady _ _ (serialized-Steady _ _) λ final.
                  then-Steady _ _ (with_error-Takes 0 _ (write final) (write-Steady final))
                    (then-Steady _ _ (expect-Steady _ _ _) (pure-Steady tt))))))

  pub run_c2s-Steady : Steady (run_c2s j)
  unfolding run_c2s connected tolerated
  run_c2s-Steady = bind-Steady _ _ (expect-Steady _ _ _) λ s.
      bind-Steady _ _ (port_of-Steady (lexical_cast_int s)) λ port.
        bind-Steady _ _ (start_flow-Steady port (pos 1)) λ flow.
          then-Steady _ _ (check-Steady _ _) (
            then-Steady _ _ (expect-Steady _ _ _) (
              then-Steady _ _ (check-Steady _ _) (
                bind-Steady _ _ (expect-Steady _ _ _) λ speed.
                  then-Steady _ _ (modify_entry-Steady _)
                    (then-Steady _ _ (expect-Steady _ _ _) (pure-Steady tt)))))

  first_word-Steady : (vec : List Bytes) → Steady (first_word vec)
  unfolding first_word
  first_word-Steady [] = fault-Steady
  first_word-Steady (s ∷ vec) = pure-Steady s

  duration_of-Steady : (o : Option Bytes) → Steady (duration_of j o)
  unfolding duration_of
  duration_of-Steady none = pure-Steady none
  duration_of-Steady (some s) =
      if-Steady (not (j.is_double s) || j.is_below s 0 || j.is_above s 60000) _ _
        (fail-Steady invalid_duration_error) (pure-Steady (some s))

  snaps_delay_of-Steady : (o : Option Bytes) → Steady (snaps_delay_of j o)
  unfolding snaps_delay_of
  snaps_delay_of-Steady none = pure-Steady none
  snaps_delay_of-Steady (some s) =
      if-Steady (not (j.is_double s) || j.is_below s 250) _ _
        (fail-Steady invalid_snaps_delay_error) (pure-Steady (some s))

  num_streams_read-Steady : (r : ErrorOr ℤ) → Steady (num_streams_read r)
  unfolding num_streams_read
  num_streams_read-Steady (err e) = fail-Steady invalid_num_streams_error
  num_streams_read-Steady (ok n) =
      if-Steady (is_invalid_num_streams n) _ _ (fail-Steady invalid_num_streams_error)
        (pure-Steady n)

  num_streams_of-Steady : (o : Option Bytes) → Steady (num_streams_of o)
  unfolding num_streams_of
  num_streams_of-Steady none = pure-Steady (pos 1)
  num_streams_of-Steady (some s) = num_streams_read-Steady (lexical_cast_int s)

  params_of-Steady : (vec : List Bytes) → Steady (params_of j vec)
  unfolding params_of
  params_of-Steady vec = bind-Steady _ _ (first_word-Steady vec) λ word.
      bind-Steady _ _ (port_of-Steady (lexical_cast_int word)) λ port.
        bind-Steady _ _ (duration_of-Steady (get_elem? vec 1)) λ duration.
          bind-Steady _ _ (snaps_delay_of-Steady (get_elem? vec 3)) λ delay.
            bind-Steady _ _ (num_streams_of-Steady (get_elem? vec 5)) λ num_streams. pure-Steady _

  finalizing_test_loop-Ends : (fuel : ℕ) (e : S2cEntry) → Ends fuel (finalizing_test_loop j fuel e)
  unfolding finalizing_test_loop on_final
  finalizing_test_loop-Ends zero e c d s h = absurd (omega arith)
  finalizing_test_loop-Ends (suc fuel) e c d s h =
      round-Agree fuel _ _ (with_error-Takes 3 _ (read_msg j) (read_msg-Takes j))
        (λ m. if-Ends fuel (m.0 == test_finalize) _ _ (Steady-Ends fuel _ (modify_entry-Steady _)) (
          then-Ends fuel _ _ (check-Steady (m.0 == test_msg) not_test_msg_error) (
            bind-Ends fuel _ _ (report_lines-Steady j e.web100_data m.1)
              λ data'. finalizing_test_loop-Ends fuel _)))
        c d s h

  finalizing_test-Steady : (e : S2cEntry) → Steady (finalizing_test j e)
  unfolding finalizing_test
  finalizing_test-Steady e =
      fueled-Steady (λ fuel. finalizing_test_loop j fuel e)
        (λ fuel. finalizing_test_loop-Ends fuel e)

  pub run_s2c-Steady : Steady (run_s2c j)
  unfolding run_s2c connected completed
  run_s2c-Steady = bind-Steady _ _ (expect-Steady _ _ _) λ s.
      bind-Steady _ _ (split-Steady s (codes " ")) λ vec.
        bind-Steady _ _ (params_of-Steady vec) λ params.
          bind-Steady _ _ (start_flow-Steady params.port params.num_streams) λ flow.
            then-Steady _ _ (check-Steady _ _) (
              then-Steady _ _ (expect-Steady _ _ _) (
                then-Steady _ _ (check-Steady _ _) (
                  bind-Steady _ _ (document-Steady _) λ m. then-Steady _ _ (check-Steady _ _) (
                    bind-Steady _ _ (serialized-Steady _ _) λ out.
                      then-Steady _ _ (with_error-Takes 0 _ (write out) (write-Steady out))
                        (finalizing_test-Steady _)))))
