-- ===== src/Common/Worker.antt =====
-- `Worker` of common/worker.hpp and common/worker.cpp: a job queue with a bounded number of threads.
-- The mutex makes each critical section one step. A callback is the number of a job, which is assumed
-- not to throw, or `none` for an empty `std::function`.
pub mod Schedule
use libight.Prelude.{
  ℕ, ◌+◌, ◌-◌, ◌%◌, ◌^◌, List, [], ◌∷◌, ◌++◌, Option, none, some, leb, ltb, if◌then◌else◌, Bool,
  true, false,
}

-- `unsigned short`
abbrev pub ushort_mod : ℕ
ushort_mod = 2 ^ 16

pub record State : Type 0 where
  pub active : ℕ
  pub parallelism : ℕ
  pub queue : List (Option ℕ)

-- `Worker()`
abbrev pub initial : State
initial = record { active = 0; parallelism = 3; queue = [] }

-- `Worker(short)`: the argument, read as an unsigned short.
abbrev pub with_parallelism : ℕ → State
with_parallelism p = record initial { parallelism = p % ushort_mod }

-- `call_in_thread`: the new state, and whether a thread was created.
unfoldable pub call_in_thread : State → Option ℕ → State × Bool
call_in_thread s func =
    let queued = record s { queue = s.queue ++ func ∷ [] } in
    if leb s.parallelism s.active
    then (queued, false)
    else (record queued { active = (s.active + 1) % ushort_mod }, true)

-- The critical section of a thread's loop: the callback that it takes. The thread ends when this is
-- empty, which it also is where the queue is; only there `active` is decremented.
pub fetch_from : State → List (Option ℕ) → State × Option ℕ
fetch_from s [] = (record s { active = (s.active + ushort_mod - 1) % ushort_mod }, none)
fetch_from s (front ∷ rest) = (record s { queue = rest }, front)

pub fetch : State → State × Option ℕ
unfolding fetch_from
fetch s = fetch_from s s.queue

pub set_parallelism : State → ℕ → State
set_parallelism s newval = record s { parallelism = newval % ushort_mod }

abbrev pub concurrency : State → ℕ
concurrency s = s.active
