-- ===== src/Neubot/Dash/Run.antt =====
-- The loops of neubot/dash_impl.hpp: measuring, negotiating, and all of it.
use libight.Prelude.{
  ℕ, zero, suc, ◌+◌, not, List, [], ◌∷◌, ◌++◌, Option, none, some, ◌==◌, if◌then◌else◌, map,
}
use libight.Prelude.Bytes.{Bytes, codes}
use libight.Common.Error.{Error, ErrorOr, ok, err, is_error, no_error, json_processing_error}
use libight.Http.Errors.{http_request_failed_error}
use libight.Neubot.Dash.{
  generic_error_with, Settings, Options, options_of, Receiver, Chunk, Exchange, Reply, Network,
  Ending, rate_of, count_of, chunk_error,
}

-- `run_loop_` with the iterations that are left, from a number on. `speed_kbit` is `none` before the
-- first iteration.
module _ (network : Network) (o : Options) (real_address : Bytes) where
  unfoldable pub received_by : ℕ → ℕ → Chunk → Receiver
  received_by iteration rate_kbit k = record {
    internal_address = network.sockname;
    real_address = real_address;
    iteration = iteration;
    rate = rate_kbit;
    received = k.received;
  }

  abbrev pub speed_or : Option ℕ → ℕ
  speed_or (some speed_kbit) = speed_kbit
  speed_or none = if o.use_fixed_rates then 100 else o.initial_rate

  -- `again` goes on with the speed of the chunk.
  unfoldable pub on_chunk : ℕ → ℕ → Chunk → (ℕ → List Receiver → Ending) → List Receiver → Ending
  on_chunk iteration rate_kbit k again entry =
      if is_error (chunk_error k)
      then some (chunk_error k, entry)
      else again k.speed_kbit (entry ++ received_by iteration rate_kbit k ∷ [])

  unfoldable pub with_count :
      ℕ → ℕ → Option ℕ → (ℕ → List Receiver → Ending) → List Receiver → Ending
  with_count iteration rate_kbit none again entry = none
  with_count iteration rate_kbit (some count) again entry =
      on_chunk iteration rate_kbit (network.chunk iteration count) again entry

  unfoldable pub with_rate : ℕ → Option ℕ → (ℕ → List Receiver → Ending) → List Receiver → Ending
  with_rate iteration none again entry = none
  with_rate iteration (some rate_kbit) again entry =
      with_count iteration rate_kbit (count_of rate_kbit o.elapsed_target) again entry

  unfoldable pub run_loop : ℕ → ℕ → Option ℕ → List Receiver → Ending
  run_loop zero iteration speed_kbit entry = some (no_error, entry)
  run_loop (suc left) iteration speed_kbit entry =
      with_rate iteration (rate_of o (speed_or speed_kbit))
        (λ s d. run_loop left (iteration + 1) (some s) d) entry

-- What was received, how often a transport was connected, and closed, and the requests that
-- negotiated.
pub record Done : Type 0 where
  pub failure : Error
  pub receiver_data : List Receiver
  pub connections : ℕ
  pub closed : ℕ

unfoldable pub after_run : Ending → Option Done
after_run none = none
after_run (some (failure, entry)) =
    some (record { failure = failure; receiver_data = entry; connections = 1; closed = 1 })

unfoldable pub run_with : Network → Bytes → ErrorOr Options → Option Done
run_with network real_address (err e) =
    some (record { failure = e; receiver_data = []; connections = 1; closed = 1 })
run_with network real_address (ok o) =
    after_run (run_loop network o real_address o.max_iterations 1 none [])

-- `run_impl`
unfoldable pub run : Network → Settings → Bytes → Option Done
run network settings real_address =
    if is_error network.run_connect_error
    then some (record {
      failure = network.run_connect_error;
      receiver_data = [];
      connections = 0;
      closed = 0;
    })
    else run_with network real_address (options_of settings)

-- What the callback of a negotiation does: it is done, or negotiates again with a token.
pub data Verdict : Type 0 where
  refused : Error → Verdict
  granted : Bytes → Bytes → Verdict
  choked : Bytes → Verdict

unfoldable pub on_parsed_reply : Option Reply → Verdict
on_parsed_reply none = refused json_processing_error
on_parsed_reply (some r) =
    if not r.unchoked then choked r.authorization else granted r.authorization r.real_address

unfoldable pub on_negotiation : Network → Exchange → Verdict
on_negotiation network e =
    if is_error e.failure
    then refused e.failure
    else if not (e.status_code == 200)
    then refused http_request_failed_error
    else on_parsed_reply (network.parse_reply e.body)

abbrev pub max_negotiations : ℕ
max_negotiations = 512

unfoldable pub after_negotiation :
    Verdict → (Bytes → ErrorOr (Bytes × Bytes) × ℕ) → ErrorOr (Bytes × Bytes) × ℕ
after_negotiation (refused e) again = (err e, 1)
after_negotiation (granted auth real_address) again = (ok (auth, real_address), 1)
after_negotiation (choked auth) again = ((again auth).0, (again auth).1 + 1)

-- `negotiate_loop_` with the negotiations that are left, from a number on: its result, and how many
-- requests are made.
unfoldable pub negotiate_loop : Network → ℕ → ℕ → Bytes → ErrorOr (Bytes × Bytes) × ℕ
negotiate_loop network zero iteration auth_token =
    (err (generic_error_with (codes "too_many_negotiations")), 0)
negotiate_loop network (suc left) iteration auth_token =
    after_negotiation (on_negotiation network (network.negotiation iteration auth_token))
      (negotiate_loop network left (iteration + 1))

-- From the first negotiation on.
unfoldable pub negotiate_all : Network → ErrorOr (Bytes × Bytes) × ℕ
negotiate_all network = negotiate_loop network (max_negotiations + 1) 0 []

-- `collect_`: the error that it calls back with.
unfoldable pub collect : Network → Error
collect network =
    if is_error network.collection.failure
    then network.collection.failure
    else if not (network.collection.status_code == 200)
    then http_request_failed_error
    else if network.is_json network.collection.body
    then no_error
    else json_processing_error

abbrev pub sanitize_receiver : Receiver → Receiver
sanitize_receiver r = record r {
  internal_address = codes "127.0.0.1";
  real_address = codes "127.0.0.1";
}

-- `sanitize_entry_`
unfoldable pub sanitize_entry : List Receiver → List Receiver
sanitize_entry entry = map sanitize_receiver entry

-- The result of the measurement is not looked at.
unfoldable pub after_measuring : Network → Option Done → Option Done
after_measuring network none = none
after_measuring network (some d) = some (record {
  failure = collect network;
  receiver_data = sanitize_entry d.receiver_data;
  connections = d.connections + 1;
  closed = d.closed + 1;
})

unfoldable pub after_negotiating : Network → Settings → ErrorOr (Bytes × Bytes) → Option Done
after_negotiating network settings (err e) =
    some (record { failure = e; receiver_data = []; connections = 1; closed = 1 })
after_negotiating network settings (ok (auth, real_address)) =
    after_measuring network (run network settings real_address)

unfoldable pub negotiate_with : Network → Settings → Option Done
negotiate_with network settings =
    if is_error network.connect_error
    then some (record {
      failure = network.connect_error;
      receiver_data = [];
      connections = 0;
      closed = 0;
    })
    else after_negotiating network settings (negotiate_all network).0
