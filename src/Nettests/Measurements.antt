-- ===== src/Nettests/Measurements.antt =====
-- `Runnable::run_next_measurement` of nettests/runnable.cpp, run by `mk::parallel` as often as the
-- setting "parallelism" says. The runs share the inputs and the number of the next entry. A step of
-- a run is what it does until it waits for a callback; the steps of the runs come in any order.
pub mod Invariant
pub mod Once
use libight.Prelude.{
  ℕ, ◌+◌, ◌<◌, ◌≡◌, Bool, true, false, not, ◌&&◌, ◌||◌, List, [], ◌∷◌, ◌++◌, ◌==◌, ltb,
  if◌then◌else◌,
}
use libight.Prelude.Bytes.{Bytes}
use libight.Common.Error.{Error, is_error, no_error}

-- The settings that are read, "no_collector" and "ignore_write_entry_error".
pub record Settings : Type 0 where
  pub no_collector : Bool
  pub ignore_write_entry_error : Bool

-- The events that the logger emits, with the index of the entry.
pub data Event : Type 0 where
  measurement_start : ℕ → Bytes → Event
  measurement : ℕ → Event
  measurement_submission_failure : ℕ → Event
  measurement_submission : ℕ → Event
  measurement_done : ℕ → Event

-- A run is about to take an input, waits for `main`, waits for `write_entry`, or called its callback.
pub data Run : Type 0 where
  absent ready : Run
  measuring : ℕ → Bytes → Run
  writing : ℕ → Bytes → Run
  ended : Error → Run

pub record State : Type 0 where
  pub inputs : List Bytes
  pub current_entry : ℕ
  pub runs : ℕ → Run
  pub events : List Event
  -- the inputs that were taken, oldest first
  pub started : List Bytes
  -- the entries that were given to the report, newest first
  pub submitted : List (ℕ × Bytes)
  -- a run ended before the inputs were used up
  pub cut_short : Bool

abbrev pub update : (ℕ → Run) → ℕ → Run → ℕ → Run
update f i v j = if i == j then v else f j

-- `begin`, when the inputs are there.
abbrev pub start : ℕ → List Bytes → State
start parallelism inputs = record {
  inputs = inputs;
  current_entry = 0;
  runs = λ i. if ltb i parallelism then ready else absent;
  events = [];
  started = [];
  submitted = [];
  cut_short = false;
}

-- With the inputs that are left; `exceeded` is the test of the maximum runtime.
unfoldable pub take_input : ℕ → List Bytes → State → State
take_input i [] s = record s { runs = update s.runs i (ended no_error) }
take_input i (next_input ∷ inputs) s = record s {
  inputs = inputs;
  current_entry = s.current_entry + 1;
  runs = update s.runs i (measuring s.current_entry next_input);
  events = s.events ++ measurement_start s.current_entry next_input ∷ [];
  started = s.started ++ next_input ∷ [];
}

unfoldable pub run_next_measurement : ℕ → Bool → State → State
run_next_measurement i exceeded s =
    if exceeded
    then record s { runs = update s.runs i (ended no_error); cut_short = true }
    else take_input i s.inputs s

-- The callback of `main`.
unfoldable pub on_test_keys : ℕ → ℕ → Bytes → State → State
on_test_keys i idx input s = record s {
  runs = update s.runs i (writing idx input);
  events = s.events ++ measurement idx ∷ [];
  submitted = (idx, input) ∷ s.submitted;
}

-- The events of the callback of `write_entry`.
unfoldable pub submission : Settings → ℕ → Error → List Event
submission settings idx failure =
    if settings.no_collector
    then []
    else if is_error failure
    then measurement_submission_failure idx ∷ []
    else measurement_submission idx ∷ []

-- The callback of `write_entry`; the next measurement is left to the reactor.
unfoldable pub on_written : Settings → ℕ → ℕ → Error → State → State
on_written settings i idx failure s =
    if is_error failure && not settings.ignore_write_entry_error
    then record s {
      runs = update s.runs i (ended failure);
      events = s.events ++ submission settings idx failure;
      cut_short = true;
    }
    else record s {
      runs = update s.runs i ready;
      events = s.events ++ (submission settings idx failure ++ measurement_done idx ∷ []);
    }

pub data Step (settings : Settings) (s : State) : State → Type 0 where
  next_measurement :
      (i : ℕ) (exceeded : Bool)
      → s.runs i ≡ ready
      → Step settings s (run_next_measurement i exceeded s)
  test_keys :
      (i idx : ℕ) (input : Bytes)
      → s.runs i ≡ measuring idx input
      → Step settings s (on_test_keys i idx input s)
  written :
      (i idx : ℕ) (input : Bytes) (failure : Error)
      → s.runs i ≡ writing idx input
      → Step settings s (on_written settings i idx failure s)

pub data Reach (settings : Settings) (s : State) : State → Type 0 where
  here : Reach settings s s
  next : {t u : State} → Reach settings s t → Step settings t u → Reach settings s u
