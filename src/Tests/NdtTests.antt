-- ===== src/Tests/NdtTests.antt =====
-- ndt/ at concrete inputs.
use libight.Prelude.{◌≡◌, refl, ℕ, true, false, List, [], ◌∷◌, ◌++◌, some, none, Option, arith, All}
use libight.Prelude.Bytes.{Bytes, codes}
use libight.Prelude.Int.{pos}
use libight.Common.Error.{no_error, ok}
use libight.Common.Scalar.{lexical_cast_unsigned, lexical_cast_int}
use libight.Net.Errors.{eof_error}
use libight.Net.Transport.{Event, data_event, error_event}
use libight.Net.Transport.Cutting.{flat, view}
use libight.Ndt.Context.{Context, Params, returns, faults}
use libight.Ndt.Errors.{data_after_logout_error}
use libight.Ndt.Messages.{Json, format_any, read_ll}
use libight.Ndt.Protocol.{wait_close, wait_in_queue}
use libight.Ndt.Subtests.{
  Settings, params_of, run_s2c, port_of, first_word, duration_of, snaps_delay_of, num_streams_of,
}
use libight.Ndt.Run.{World, new_context, conversation}
use libight.Ndt.Framing.{message, read_ll-format_any}
use libight.Ndt.Queue.{IsKept, Tells, queue, answers, wait_in_queue_lem}
use libight.Ndt.Bounds.{InBounds, params_of_bounds, run_s2c_empty}
use libight.Ndt.Cutting.{IsReal, items, Same}
use libight.Ndt.Cutting.Session.{
  Result, failed, succeeded, Effects, effects, seen, conversation_cut, wait_close_cut,
}

-- Documents that are their own text.
abbrev texts : Json
texts = record {
  dump_msg = λ s. some s;
  dump_login = λ v t. some (v ++ t);
  is_json = λ s. true;
  msg_of = λ s. some s;
  is_double = λ s. false;
  is_below = λ s n. false;
  is_above = λ s n. false;
}

abbrev world : World
world = record {
  connect_error = no_error;
  incoming =
      data_event (codes "123456 65")
      ∷ data_event (codes "4321" ++ (message 1 (codes "9990") ++ message 1 (codes "0")))
      ∷ data_event (message 2 (codes "v3.7.0") ++ message 2 (codes "32"))
      ∷ data_event (message 3 [] ++ (message 4 [] ++ message 6 []))
      ∷ data_event (message 8 (codes "a:1") ++ message 9 [])
      ∷ [];
  flushes = no_error ∷ no_error ∷ [];
  flows = [];
}

abbrev settings : Settings
settings = record { software_version = codes "1"; software_name = codes "x" }

-- The same bytes in one piece.
abbrev whole : List Event
whole =
    data_event (
      codes "123456 654321"
      ++ (message 1 (codes "9990")
          ++ (message 1 (codes "0")
              ++ (message 2 (codes "v3.7.0")
                  ++ (message 2 (codes "32")
                      ++ (message 3 []
                          ++ (message 4 []
                              ++ (message 6 [] ++ (message 8 (codes "a:1") ++ message 9 [])))))))))
    ∷ []

same_bytes : flat world.incoming ≡ flat whole
unfolding flat
same_bytes = refl

incoming-IsReal : All IsReal (flat world.incoming)
unfolding flat
incoming-IsReal = omega arith

conversation_cut_example :
    (r : Result × Option Effects) × (seen (conversation texts settings 54 (new_context world))
      ≡ some r)
    × (seen (conversation texts settings 54 (new_context (record world { incoming = whole })))
        ≡ some r)
conversation_cut_example = conversation_cut texts settings 54 world whole same_bytes incoming-IsReal

abbrev start : Context
start = new_context world

wait_close_cut_example :
    (seen (
        wait_close (record start {
          buff = [];
          incoming = data_event (codes "x") ∷ error_event eof_error ∷ [];
        }))
      ≡ some (failed data_after_logout_error, some (effects start)))
    × (seen (wait_close (record start { buff = codes "x"; incoming = error_event eof_error ∷ [] }))
        ≡ some (succeeded, some (effects start)))
wait_close_cut_example = wait_close_cut start (codes "x") (omega arith)

abbrev two_pieces : Context
two_pieces = record start {
  buff = 5 ∷ 0 ∷ [];
  incoming = data_event (2 ∷ codes "hi") ∷ data_event (codes "?") ∷ [];
}

format_hi : format_any 5 (codes "hi") ≡ ok (message 5 (codes "hi"))
unfolding format_any
format_hi = refl

two_pieces-items :
    items two_pieces ≡ view (message 5 (codes "hi") ++ []) (data_event (codes "?") ∷ [])
unfolding view flat
two_pieces-items = refl

two_pieces-IsReal : All IsReal (items two_pieces)
unfolding view flat
two_pieces-IsReal = omega arith

read_ll-format_any_example :
    (c' : Context) × (read_ll two_pieces ≡ returns (5, codes "hi") c')
    × Same c' (record two_pieces { buff = []; incoming = data_event (codes "?") ∷ [] })
read_ll-format_any_example =
    read_ll-format_any 5 (codes "hi") (message 5 (codes "hi")) [] (data_event (codes "?") ∷ [])
      two_pieces format_hi two_pieces-items two_pieces-IsReal

-- A heartbeat, a place in the queue, and the admission.
abbrev waiting_times : List (Bytes × ℕ)
waiting_times = (codes "9990", 9990) ∷ (codes "3", 3) ∷ []

Tells-beat : Tells texts (codes "9990") 9990
unfolding lexical_cast_unsigned
Tells-beat = record {
  accepted = refl;
  text = codes "9990";
  text_under = refl;
  time = refl;
  fits = omega arith;
}

Tells-three : Tells texts (codes "3") 3
unfolding lexical_cast_unsigned
Tells-three = record {
  accepted = refl;
  text = codes "3";
  text_under = refl;
  time = refl;
  fits = omega arith;
}

Tells-zero : Tells texts (codes "0") 0
unfolding lexical_cast_unsigned
Tells-zero = record {
  accepted = refl;
  text = codes "0";
  text_under = refl;
  time = refl;
  fits = omega arith;
}

beat-IsKept : IsKept 9990
beat-IsKept = record {
  ne_zero = ground arith;
  ne_fault = ground arith;
  ne_busy = ground arith;
  ne_busy_60s = ground arith;
}

three-IsKept : IsKept 3
three-IsKept = record {
  ne_zero = ground arith;
  ne_fault = ground arith;
  ne_busy = ground arith;
  ne_busy_60s = ground arith;
}

abbrev in_queue : Context
in_queue = record start {
  incoming =
      data_event (message 1 (codes "9990"))
      ∷ data_event (message 1 (codes "3") ++ message 1 (codes "0"))
      ∷ [];
}

in_queue-items : items in_queue ≡ view (queue waiting_times (codes "0") ++ []) []
unfolding view flat
in_queue-items = refl

in_queue-IsReal : All IsReal (items in_queue)
unfolding view flat
in_queue-IsReal = omega arith

wait_in_queue_lem_example :
    (c' : Context) × (wait_in_queue texts in_queue ≡ returns tt c')
    × Same c' (record in_queue {
      buff = [];
      incoming = [];
      written = in_queue.written ++ answers [] waiting_times;
    })
wait_in_queue_lem_example =
    wait_in_queue_lem texts [] refl (omega arith) waiting_times (codes "0") [] [] in_queue
      ((Tells-beat, beat-IsKept), ((Tells-three, three-IsKept), tt)) Tells-zero in_queue-items
      in_queue-IsReal

abbrev prepare_words : List Bytes
prepare_words = codes "3010" ∷ []

abbrev accepted_params : Params
accepted_params = record {
  port = pos 3010;
  duration = none;
  snaps_delay = none;
  num_streams = pos 1;
}

words_accepted : params_of texts prepare_words start ≡ returns accepted_params start
unfolding params_of port_of first_word duration_of snaps_delay_of num_streams_of lexical_cast_int
words_accepted = refl

params_of_bounds_example : InBounds accepted_params
params_of_bounds_example =
    params_of_bounds texts prepare_words start start accepted_params words_accepted

run_s2c_empty_example : run_s2c texts (record start { buff = message 3 [] ++ [] }) ≡ faults
run_s2c_empty_example = run_s2c_empty texts start [] [] refl refl (omega arith)
