-- ===== src/Ndt/Cutting/Session.antt =====
-- The conversation with the server, from the login to the logout, under any cutting of what the
-- server sends; and the wait for the close, where the cutting shows.
use libight.Prelude.{
  ℕ, ◌<◌, ◌≡◌, refl, false, List, [], ◌∷◌, arith, Option, none, some, ltb, length, All,
}
use libight.Prelude.Bytes.{Bytes}
use libight.Prelude.Int.{ℤ}
use libight.Common.Error.{Error}
use libight.Net.Errors.{eof_error}
use libight.Net.Transport.{Event, data_event, error_event, read, readn}
use libight.Net.Transport.Cutting.{flat, view}
use libight.Ndt.Errors.{data_after_logout_error}
use libight.Ndt.Context.{Context, Entry, Outcome, returns, fails, waits, faults, spins}
use libight.Ndt.Messages.{Json}
use libight.Ndt.Protocol.{wait_close}
use libight.Ndt.Subtests.{Settings}
use libight.Ndt.Run.{World, new_context, conversation}
use libight.Ndt.Cutting.{
  IsReal, Same, Agree, both_return, both_fail, both_wait, both_fault, Steady, then-Steady,
}
use libight.Ndt.Cutting.Phases.{
  send_extended_login-Steady, recv_and_ignore_kickoff-Steady, wait_in_queue-Steady,
  recv_version-Steady, recv_tests_id-Steady, run_tests-Steady, recv_results_and_logout-Steady,
}
use libight.Ndt.Cutting.Subtests.{run_meta-Steady, run_c2s-Steady, run_s2c-Steady}

conversation-Steady :
    (j : Json) (settings : Settings) (suite : ℕ) → Steady (conversation j settings suite)
unfolding conversation
conversation-Steady j settings suite = then-Steady _ _ (send_extended_login-Steady j suite) (
    then-Steady _ _ recv_and_ignore_kickoff-Steady (
      then-Steady _ _ (wait_in_queue-Steady j) (
        then-Steady _ _ (recv_version-Steady j) (
          then-Steady _ _ (recv_tests_id-Steady j) (
            then-Steady _ _
              (run_tests-Steady _ _ _ (run_c2s-Steady j) (run_meta-Steady j settings)
                (run_s2c-Steady j))
              (recv_results_and_logout-Steady j))))))

-- How an outcome looks from outside: whether it succeeded, failed, waits or faulted.
pub data Result : Type 0 where
  succeeded : Result
  failed : Error → Result
  still_waiting : Result
  faulted : Result

-- What was sent, which test connections were started, and the entry.
abbrev pub Effects : Type 0
Effects = Bytes × List (ℤ × ℤ) × Entry

abbrev pub effects : Context → Effects
effects c = (c.written, c.started, c.entry)

-- Nothing is seen of a computation that does not end.
abbrev pub seen : Outcome (Unit {0}) → Option (Result × Option Effects)
seen (returns tt c) = some (succeeded, some (effects c))
seen (fails e c) = some (failed e, some (effects c))
seen (waits c) = some (still_waiting, some (effects c))
seen faults = some (faulted, none)
seen spins = none

effects-Same : {c d : Context} → Same c d → effects c ≡ effects d
effects-Same s = cc (s.written_same, s.started_same, s.entry_same)

seen-Agree :
    (k n : ℕ) {o p : Outcome (Unit {0})}
    → Agree k n o p
    → (r : Result × Option Effects) × (seen o ≡ some r) × (seen p ≡ some r)
seen-Agree k n (both_return tt {c} {d} s h) =
    ((succeeded, some (effects d)), rw (effects-Same s), refl)
seen-Agree k n (both_fail e {c} {d} s h) = ((failed e, some (effects d)), rw (effects-Same s), refl)
seen-Agree k n (both_wait {c} {d} s) =
    ((still_waiting, some (effects d)), rw (effects-Same s), refl)
seen-Agree k n both_fault = ((faulted, none), refl, refl)

new-Same :
    (w : World) (es : List Event)
    → flat w.incoming ≡ flat es
    → All IsReal (flat w.incoming)
    → Same (new_context w) (new_context (record w { incoming = es }))
unfolding view
new-Same w es e h = record {
  items_same = e;
  real = h;
  flushes_same = refl;
  written_same = refl;
  flows_same = refl;
  started_same = refl;
  suite_same = refl;
  entry_same = refl;
}

-- The conversation always ends, by success, by an error, by waiting for the server or by a fault;
-- and which it is, what was sent, the test connections and the entry depend on the bytes and errors
-- that arrive, not on how the bytes are cut, if the errors that arrive are real ones.
pub conversation_cut :
    (j : Json) (settings : Settings) (suite : ℕ) (w : World) (es : List Event)
    → flat w.incoming ≡ flat es
    → All IsReal (flat w.incoming)
    → (r : Result × Option Effects) × (seen (conversation j settings suite (new_context w))
        ≡ some r)
      × (seen (conversation j settings suite (new_context (record w { incoming = es }))) ≡ some r)
conversation_cut j settings suite w es e h = seen-Agree 0 _ (
    conversation-Steady j settings suite (new_context w) (new_context (record w { incoming = es }))
      (new-Same w es e h))

-- Where the server sends something after the logout and then closes the connection, the wait for the
-- close fails if this arrives on its own, and succeeds if it arrived together with what is before it.
pub wait_close_cut :
    (c : Context) (x : Bytes)
    → 0 < length x
    → (seen (
          wait_close (record c { buff = []; incoming = data_event x ∷ error_event eof_error ∷ [] }))
        ≡ some (failed data_after_logout_error, some (effects c)))
      × (seen (wait_close (record c { buff = x; incoming = error_event eof_error ∷ [] }))
          ≡ some (succeeded, some (effects c)))
unfolding wait_close read readn
wait_close_cut c x h = let e : ltb (length x) 1 ≡ false = ground arith in (rw e, refl)
