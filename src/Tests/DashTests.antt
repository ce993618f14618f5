-- ===== src/Tests/DashTests.antt =====
-- neubot/dash_impl.hpp at concrete inputs.
use libight.Prelude.{◌≡◌, refl, zero, suc, true, false, [], ◌∷◌, some, none}
use libight.Prelude.Bytes.{codes, beq}
use libight.Prelude.Int.{pos}
use libight.Common.Error.{no_error, ok}
use libight.Neubot.Dash.{
  Settings, Network, options_of, rate_of, count_of, chunk_error, first_not_below,
  select_lower_rate_index,
}
use libight.Neubot.Dash.Run.{
  run_loop, with_rate, with_count, on_chunk, received_by, after_run, run_with, run, on_parsed_reply,
  on_negotiation, after_negotiation, negotiate_loop, negotiate_all, negotiate_with,
}
use libight.Neubot.Dash.Rates.{Selected, select_lower_rate_index_lem}
use libight.Neubot.Dash.Ends.{IsClean, negotiate_with-IsClean, Negotiated, negotiate_all-Negotiated}

abbrev settings : Settings
settings = record {
  fast_scale_down = ok false;
  constant_bitrate = ok (pos 0);
  use_fixed_rates = ok false;
  elapsed_target = ok (pos 2);
  max_iteration = ok (pos 2);
  initial_rate = ok (pos 3000);
}

-- The second negotiation grants the measurement.
abbrev network : Network
network = record {
  connect_error = no_error;
  negotiation = λ iteration token. (record {
    failure = no_error;
    status_code = 200;
    body = elim iteration [ zero ↦ codes "wait" | suc k ↦ codes "go" ];
  });
  parse_reply = λ body. some (record {
    authorization = codes "token";
    real_address = codes "1.2.3.4";
    unchoked = beq body (codes "go");
  });
  run_connect_error = no_error;
  sockname = codes "192.168.0.2";
  chunk = λ iteration count. (record {
    send_error = no_error;
    receive_error = no_error;
    status_code = 200;
    connection = [];
    received = count;
    time_passed = true;
    speed_kbit = 4000;
  });
  collection = record { failure = no_error; status_code = 200; body = codes "{}" };
  is_json = λ body. true;
}

select_lower_rate_index_lem_example : Selected 60000 (select_lower_rate_index 60000)
select_lower_rate_index_lem_example = select_lower_rate_index_lem 60000

behind_rates : select_lower_rate_index 60000 ≡ none
unfolding select_lower_rate_index first_not_below
behind_rates = refl

below_rate : select_lower_rate_index 3500 ≡ some 13
unfolding select_lower_rate_index first_not_below
below_rate = refl

negotiate_with-IsClean_example : IsClean (negotiate_with network settings)
negotiate_with-IsClean_example = negotiate_with-IsClean network settings

negotiate_all-Negotiated_example : Negotiated network (negotiate_all network)
negotiate_all-Negotiated_example = negotiate_all-Negotiated network

two_negotiations : negotiate_all network ≡ (ok (codes "token", codes "1.2.3.4"), 2)
unfolding negotiate_all negotiate_loop after_negotiation on_negotiation on_parsed_reply beq
two_negotiations = refl

two_chunks :
    run network settings (codes "1.2.3.4")
    ≡ some (record {
      failure = no_error;
      receiver_data =
          record {
            internal_address = codes "192.168.0.2";
            real_address = codes "1.2.3.4";
            iteration = 1;
            rate = 3000;
            received = 750000;
          }
          ∷ record {
            internal_address = codes "192.168.0.2";
            real_address = codes "1.2.3.4";
            iteration = 2;
            rate = 4000;
            received = 1000000;
          }
          ∷ [];
      connections = 1;
      closed = 1;
    })
unfolding run run_with after_run run_loop with_rate with_count on_chunk received_by rate_of count_of
    chunk_error options_of beq
two_chunks = refl
