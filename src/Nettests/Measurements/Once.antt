-- ===== src/Nettests/Measurements/Once.antt =====
-- Each input is measured once, whatever the order of the steps.
use libight.Prelude.{
  ℕ, ◌<◌, ◌≡◌, ◌≢◌, ap, ◌⊎◌, inl, inr, true, false, List, [], ◌++◌, arith, length, length-append,
}
use libight.Prelude.Bytes.{Bytes}
use libight.Common.Error.{Error}
use libight.Nettests.Measurements.{Settings, measuring, ended, State, start, Reach, here, next}
use libight.Nettests.Measurements.Invariant.{is_submitted, IsOnce, IsOwn, Inv, start-Inv, Step-Inv}

Reach-Inv :
    {settings : Settings} (n : ℕ) (inputs : List Bytes) {s : State}
    → Reach settings (start n inputs) s
    → Inv inputs s
Reach-Inv n inputs here = start-Inv n inputs
Reach-Inv n inputs (next r st) = Step-Inv inputs st (Reach-Inv n inputs r)

-- In any order of the steps of any number of runs: the inputs that were taken are the first ones, in
-- order; no index is given to the report twice, and each entry has the input with its index.
pub Reach-IsOnce :
    (settings : Settings) (n : ℕ) (inputs : List Bytes) {s : State}
    → Reach settings (start n inputs) s
    → (s.started ++ s.inputs ≡ inputs) × IsOnce s.submitted × IsOwn inputs s.submitted
Reach-IsOnce settings n inputs r = let v = Reach-Inv n inputs r in (v.consumed, v.once, v.own)

all_taken :
    (inputs : List Bytes) (s : State)
    → Inv inputs s
    → s.inputs ≡ []
    → (idx : ℕ) → idx < length inputs
    → idx < s.current_entry
all_taken inputs s v empty idx h =
    omega
      (arith, v.numbered, ap length v.consumed, length-append s.started s.inputs, ap length empty)

submitted_unless_measuring :
    (s : State) (idx : ℕ)
    → ((k : ℕ) (x : Bytes) → s.runs k ≢ measuring idx x)
    → (is_submitted idx s.submitted ≡ true) ⊎ ((k : ℕ) × (x : Bytes) × (s.runs k ≡ measuring idx x))
    → is_submitted idx s.submitted ≡ true
submitted_unless_measuring s idx none_left (inl h) = h
submitted_unless_measuring s idx none_left (inr (k, x, h)) = absurd (none_left k x h)

-- When a run has ended, none was cut short by the maximum runtime or by a failed write, and none is
-- measuring the input with an index any more, then that input was given to the report.
pub Reach-is_submitted :
    (settings : Settings) (n : ℕ) (inputs : List Bytes) {s : State} (i idx : ℕ) (e : Error)
    → Reach settings (start n inputs) s
    → s.runs i ≡ ended e
    → s.cut_short ≡ false
    → ((k : ℕ) (x : Bytes) → s.runs k ≢ measuring idx x)
    → idx < length inputs
    → is_submitted idx s.submitted ≡ true
Reach-is_submitted settings n inputs {s} i idx e r h c none_left l =
    let v = Reach-Inv n inputs r in
    submitted_unless_measuring s idx none_left
      (v.accounted idx (all_taken inputs s v (v.used_up i e h c) idx l))
