-- ===== src/Ndt/Context.antt =====
-- `Context` of ndt/internal.hpp, with what its transport gives, and computations over it.
-- The code is a chain of callbacks; a computation is what such a chain does until its last callback.
use libight.Prelude.{List, Bool, Option, none, some, if◌then◌else◌}
use libight.Prelude.Bytes.{Bytes}
use libight.Prelude.Int.{ℤ}
use libight.Common.Error.{Error, ErrorOr, ok, err, no_error}
use libight.Net.Transport.{Event}

-- What a key of a report holds; a double is kept as its text.
pub data Value : Type 0 where
  long : ℤ → Value
  double : Bytes → Value
  string : Bytes → Value

-- `Params` of the download test; times are the texts received, in milliseconds.
pub record Params : Type 0 where
  pub port : ℤ
  pub duration : Option Bytes
  pub snaps_delay : Option Bytes
  pub num_streams : ℤ

pub record S2cEntry : Type 0 where
  pub params : Params
  pub web100_data : List (Bytes × Value)

-- The keys of the entry that the conversation sets. An upload is its "avg_speed".
pub record Entry : Type 0 where
  pub server_version : Option Bytes
  pub summary_data : List (Bytes × Value)
  pub test_c2s : List (Option Bytes)
  pub test_s2c : List S2cEntry
  pub phase_result : List (Bytes × Bytes)

-- How a test connection goes: how it connects, how it ends and the speed that was measured, printed.
pub record Flow : Type 0 where
  pub connect_error : Error
  pub end_error : Error
  pub speed : Bytes

pub record Context : Type 0 where
  pub buff : Bytes
  -- what the control connection is going to give, and how each awaited write on it ends
  pub incoming : List Event
  pub flushes : List Error
  pub written : Bytes
  pub flows : List Flow
  -- the port and the number of streams of each test connection
  pub started : List (ℤ × ℤ)
  pub granted_suite : List Bytes
  pub entry : Entry

-- `waits`: the connection gives nothing more. `faults`: an exception that nothing catches, or
-- undefined behaviour. `spins`: the fuel ran out.
pub data Outcome (A : Type 0) : Type 0 where
  returns : A → Context → Outcome A
  fails : Error → Context → Outcome A
  waits : Context → Outcome A
  faults : Outcome A
  spins : Outcome A

abbrev pub M : Type 0 → Type 0
M A = Context → Outcome A

abbrev pub bind : {A B : Type 0} → Outcome A → (A → M B) → Outcome B
bind (returns a c) f = f a c
bind (fails e c) f = fails e c
bind (waits c) f = waits c
bind faults f = faults
bind spins f = spins

infixl 5 ◌>>=◌ ◌>>◌
abbrev pub ◌>>=◌ : {A B : Type 0} → M A → (A → M B) → M B
◌>>=◌ m f c = bind (m c) f

abbrev pub ◌>>◌ : {A B : Type 0} → M A → M B → M B
m >> k = m >>= λ _. k

abbrev pub pure : {A : Type 0} → A → M A
pure a c = returns a c

abbrev pub fail : {A : Type 0} → Error → M A
fail e c = fails e c

abbrev pub fault : {A : Type 0} → M A
fault c = faults

-- Go on only if the test holds.
abbrev pub check : Bool → Error → M (Unit {0})
check b e = if b then pure tt else fail e

abbrev pub from_error_or : {A : Type 0} → (Error → Error) → ErrorOr A → M A
from_error_or f (ok a) = pure a
from_error_or f (err e) = fail (f e)

abbrev pub from_option : {A : Type 0} → Option A → M A
from_option none c = spins
from_option (some a) c = returns a c

abbrev pub modify : (Context → Context) → M (Unit {0})
modify f c = returns tt (f c)

abbrev pub modify_entry : (Entry → Entry) → M (Unit {0})
modify_entry f c = returns tt (record c { entry = f c.entry })

-- The error of a step becomes the child of another one.
abbrev pub map_failure : {A : Type 0} → (Error → Error) → Outcome A → Outcome A
map_failure f (fails e c) = fails (f e) c
map_failure f (returns a c) = returns a c
map_failure f (waits c) = waits c
map_failure f faults = faults
map_failure f spins = spins

abbrev pub with_error : {A : Type 0} → (Error → Error) → M A → M A
with_error f m c = map_failure f (m c)

abbrev pub caught : Outcome (Unit {0}) → Outcome Error
caught (returns tt c) = returns no_error c
caught (fails e c) = returns e c
caught (waits c) = waits c
caught faults = faults
caught spins = spins

-- The callback of a step that is called with the error in any case.
abbrev pub attempt : M (Unit {0}) → M Error
attempt m c = caught (m c)
