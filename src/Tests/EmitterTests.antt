-- ===== src/Tests/EmitterTests.antt =====
-- net/emitter.cpp at concrete inputs.
use libight.Prelude.{◌≡◌, refl, ℕ, true, List, [], ◌∷◌, ◌++◌, some, none}
use libight.Prelude.Bytes.{codes}
use libight.Common.Error.{no_error}
use libight.Net.Emitter.{
  Emitter, shutdown, calls_data, calls_connect, calls_close, make, called, call_connect,
  emit_connect, call_data, emit_data, record_received, on_connect, reading, on_data, on_flush,
  on_error, method, close, destroy,
}
use libight.Net.Emitter.Closing.{
  Op, emits_connect, emits_data, emits_error, registers_connect, registers_data, writes, closes,
  run, close-calls, close-do_data,
}

-- A connection that was made and has got some data.
abbrev busy : Emitter ℕ
busy = emit_data (on_data (emit_connect (on_connect make (some 1))) (some 2)) (codes "abc")

busy_calls : busy.calls ≡ calls_connect 1 ∷ calls_data 2 (codes "abc") ∷ []
unfolding emit_connect call_connect emit_data call_data record_received on_connect on_data called
    method reading
busy_calls = refl

abbrev closed : Emitter ℕ
closed = record busy {
  do_connect = none;
  do_flush = none;
  do_error = none;
  close_cb = some 9;
  close_pending = true;
  methods = busy.methods ++ shutdown ∷ [];
}

is_closed : close busy (some 9) ≡ some closed
unfolding emit_connect call_connect emit_data call_data record_received on_connect on_data on_flush
    on_error called method reading close
is_closed = refl

abbrev later : List (Op ℕ)
later =
    emits_data (codes "def")
    ∷ registers_connect (some 5)
    ∷ emits_connect
    ∷ registers_data (some 6)
    ∷ emits_error no_error
    ∷ writes (codes "x")
    ∷ closes (some 10)
    ∷ []

close-calls_example : (destroy (run closed later)).calls ≡ busy.calls ++ calls_close 9 ∷ []
close-calls_example = close-calls busy 9 closed later is_closed

close-do_data_example :
    ((run closed later).do_data ≡ busy.do_data)
    × ((run closed later).methods ≡ busy.methods ++ shutdown ∷ [])
close-do_data_example = close-do_data busy (some 9) closed later is_closed
