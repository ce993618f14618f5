-- ===== src/Common/Parallel.antt =====
-- `mk::parallel` of common/parallel.hpp: run continuations, `parallelism` of them at a time.
-- A continuation may call back at any time after it was called, once; `Step` is one such moment.
pub mod Counting
pub mod Invariant
pub mod Progress
use libight.Prelude.{
  ℕ, ◌+◌, ◌<◌, ◌≡◌, Bool, true, false, ◌&&◌, List, [], ◌∷◌, ◌++◌, ◌==◌, ltb, if◌then◌else◌, set,
  replicate,
}
use libight.Prelude.Bytes.{Bytes}
use libight.Common.Error.{Error, code, reason, is_error, no_error, parallel_operation_error}

-- A continuation was not called yet, was called, or has called back.
pub data Status : Type 0 where
  idle waiting finished : Status

pub record State : Type 0 where
  -- `input.size()`
  pub size : ℕ
  pub parallelism : ℕ
  -- `overall`
  pub code : ℕ
  pub reason : Bytes
  pub children : List Error
  pub completed : ℕ
  pub status : ℕ → Status
  -- the index of the loop in `parallel`
  pub loop : ℕ
  -- the calls of `cb`: code, reason and children
  pub reported : List (ℕ × Bytes × List Error)
  -- the exception for an unexpected `*completed`
  pub thrown : Bool

abbrev pub update : (ℕ → Status) → ℕ → Status → ℕ → Status
update f i v j = if i == j then v else f j

-- `parallel` up to its loop.
unfoldable pub start : ℕ → ℕ → State
start size parallelism = record {
  size = size;
  parallelism = if parallelism == 0 then size else parallelism;
  code = 0;
  reason = [];
  children = replicate size no_error;
  completed = 0;
  status = λ i. idle;
  loop = 0;
  reported = if size == 0 then (0, [], []) ∷ [] else [];
  thrown = false;
}

-- `run` calls the continuation with this index, if there is one.
unfoldable pub run : ℕ → State → State
run idx s = if ltb idx s.size then record s { status = update s.status idx waiting } else s

record_error : ℕ → Error → State → State
record_error idx e s =
    let failed =
      (if is_error e && s.code == 0
        then record s { code = 10; reason = reason parallel_operation_error }
        else s) in
    record failed {
      children = set s.children idx e;
      completed = s.completed + 1;
      status = update s.status idx finished;
    }

continue_from : ℕ → State → State
continue_from idx s =
    if s.completed == s.size
    then record s { reported = s.reported ++ (s.code, s.reason, s.children) ∷ [] }
    else if ltb s.size s.completed
    then record s { thrown = true }
    else run (idx + s.parallelism) s

-- The callback that `run` gives to the continuation.
unfoldable pub call_back : ℕ → Error → State → State
unfolding record_error continue_from run
call_back idx e s = continue_from idx (record_error idx e s)

pub data Step (s : State) : State → Type 0 where
  -- one round of the loop in `parallel`
  launch : s.loop < s.parallelism → Step s (record (run s.loop s) { loop = s.loop + 1 })
  -- a continuation calls back
  answer : (i : ℕ) (e : Error) → s.status i ≡ waiting → Step s (call_back i e s)

pub data Reach (s : State) : State → Type 0 where
  here : Reach s s
  next : {t u : State} → Reach s t → Step t u → Reach s u
