-- ===== src/Neubot/Dash.antt =====
-- neubot/dash_impl.hpp and neubot/dash.cpp: measuring a video stream. The network, the time that passes
-- and the speeds, which are doubles, are parameters.
pub mod Run
pub mod Rates
pub mod Ends
use libight.Prelude.{
  ℕ, zero, suc, ◌+◌, ◌-◌, ◌*◌, ◌/◌, ◌%◌, ◌^◌, Bool, true, false, not, ◌&&◌, ◌||◌, List, [], ◌∷◌,
  ◌++◌, Option, none, some, ◌==◌, ltb, leb, if◌then◌else◌, get_elem?, map,
}
use libight.Prelude.Bytes.{Bytes, codes, beq}
use libight.Prelude.Int.{ℤ, pos, negsuc}
use libight.Common.Error.{
  Error, ErrorOr, ok, err, is_error, no_error, plain, with_text, value_error, json_processing_error,
}
use libight.Http.Errors.{http_request_failed_error}

-- `MiddleboxDetectedError` of neubot/dash.hpp.
abbrev pub middlebox_detected_error : Error
middlebox_detected_error = plain 9000 (codes "middlebox_detected_error")

-- `GenericError` with a text.
abbrev pub generic_error_with : Bytes → Error
generic_error_with s = with_text 1 (codes "generic_error") s

abbrev pub dash_rates : List ℕ
dash_rates =
    100 ∷ 150 ∷ 200 ∷ 250 ∷ 300 ∷ 400 ∷ 500 ∷ 700 ∷ 900 ∷ 1200 ∷ 1500 ∷ 2000 ∷ 2500 ∷ 3000 ∷ 4000
    ∷ 5000 ∷ 6000 ∷ 7000 ∷ 10000 ∷ 20000 ∷ 30000 ∷ 40000 ∷ 50000 ∷ []

-- The loop of `select_lower_rate_index` over the rates that are left; `none` where it reads behind the
-- last rate, which it does before it compares the index.
unfoldable pub first_not_below : ℕ → ℕ → List ℕ → Option ℕ
first_not_below speed_kbit rate_index [] = none
first_not_below speed_kbit rate_index (rate ∷ rates) =
    let later = first_not_below speed_kbit (rate_index + 1) rates in
    if ltb rate speed_kbit then later else some rate_index

abbrev pub one_less : Option ℕ → Option ℕ
one_less none = none
one_less (some rate_index) = some (rate_index - 1)

unfoldable pub select_lower_rate_index : ℕ → Option ℕ
select_lower_rate_index speed_kbit = one_less (first_not_below speed_kbit 0 dash_rates)

-- The settings of the loop, as they are converted.
pub record Settings : Type 0 where
  pub fast_scale_down : ErrorOr Bool
  pub constant_bitrate : ErrorOr ℤ
  pub use_fixed_rates : ErrorOr Bool
  pub elapsed_target : ErrorOr ℤ
  pub max_iteration : ErrorOr ℤ
  pub initial_rate : ErrorOr ℤ

pub record Options : Type 0 where
  pub constant_bitrate : ℕ
  pub use_fixed_rates : Bool
  pub elapsed_target : ℕ
  pub max_iterations : ℕ
  pub initial_rate : ℕ

abbrev pub not_negative : ErrorOr ℤ → ErrorOr ℕ
not_negative (ok (pos n)) = ok n
not_negative _ = err value_error

infixl 5 ◌>>=◌
abbrev ◌>>=◌ : {A B : Type 0} → ErrorOr A → (A → ErrorOr B) → ErrorOr B
◌>>=◌ (err e) f = err e
◌>>=◌ (ok a) f = f a

unfoldable pub options_of : Settings → ErrorOr Options
options_of settings = do
  _ ← settings.fast_scale_down
  constant_bitrate ← not_negative settings.constant_bitrate
  use_fixed_rates ← settings.use_fixed_rates
  elapsed_target ← not_negative settings.elapsed_target
  max_iterations ← not_negative settings.max_iteration
  initial_rate ← not_negative settings.initial_rate
  ok (record {
    constant_bitrate = constant_bitrate;
    use_fixed_rates = use_fixed_rates;
    elapsed_target = elapsed_target;
    max_iterations = max_iterations;
    initial_rate = initial_rate;
  })

-- What is kept of an element of "receiver_data".
pub record Receiver : Type 0 where
  pub internal_address : Bytes
  pub real_address : Bytes
  pub iteration : ℕ
  pub rate : ℕ
  pub received : ℕ

-- How a chunk is fetched: the errors of sending and of receiving, the response, whether time passed,
-- and the speed, in kbit/s, that is computed from it.
pub record Chunk : Type 0 where
  pub send_error : Error
  pub receive_error : Error
  pub status_code : ℕ
  pub connection : Bytes
  pub received : ℕ
  pub time_passed : Bool
  pub speed_kbit : ℕ

-- How a request with a response ends.
pub record Exchange : Type 0 where
  pub failure : Error
  pub status_code : ℕ
  pub body : Bytes

-- The keys of a reply to a negotiation, but for "queue_pos".
pub record Reply : Type 0 where
  pub authorization : Bytes
  pub real_address : Bytes
  pub unchoked : Bool

pub record Network : Type 0 where
  pub connect_error : Error
  -- by the number of the iteration and the token
  pub negotiation : ℕ → Bytes → Exchange
  pub parse_reply : Bytes → Option Reply
  -- the connection of the measurement, and its own address
  pub run_connect_error : Error
  pub sockname : Bytes
  -- by the number of the iteration and the size
  pub chunk : ℕ → ℕ → Chunk
  pub collection : Exchange
  pub is_json : Bytes → Bool

-- How the loop ends: its error and what was received. `none`: undefined behaviour.
abbrev pub Ending : Type 0
Ending = Option (Error × List Receiver)

-- The rate of an iteration.
unfoldable pub rate_of : Options → ℕ → Option ℕ
rate_of o speed_kbit =
    if o.use_fixed_rates
    then rate_at (select_lower_rate_index speed_kbit)
    else some (if ltb 0 o.constant_bitrate then o.constant_bitrate else speed_kbit)
  where
    rate_at : Option ℕ → Option ℕ
    rate_at none = none
    rate_at (some rate_index) = get_elem? dash_rates rate_index

abbrev pub int_max : ℕ
int_max = 2 ^ 31 - 1

-- The size of a chunk; an `int` that overflows is undefined behaviour.
unfoldable pub count_of : ℕ → ℕ → Option ℕ
count_of rate_kbit elapsed_target =
    if ltb int_max (rate_kbit * 1000) || ltb int_max (rate_kbit * 1000 / 8 * elapsed_target)
    then none
    else some (rate_kbit * 1000 / 8 * elapsed_target)

-- The error that a chunk ends the loop with, if it is one.
unfoldable pub chunk_error : Chunk → Error
chunk_error k =
    if is_error k.send_error
    then k.send_error
    else if is_error k.receive_error
    then k.receive_error
    else if not (k.status_code == 200)
    then http_request_failed_error
    else if beq k.connection (codes "close")
    then middlebox_detected_error
    else if not k.time_passed
    then generic_error_with (codes "negative_time_error")
    else no_error
