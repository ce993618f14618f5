-- ===== src/Report/BaseReporter/Lifecycle.antt =====
-- The life of a reporter under any interleaving of calls and of continuations that call back.
use libight.Prelude.{
  ℕ, zero, suc, ◌≡◌, ◌⊎◌, true, List, [], ◌∷◌, ◌++◌, some, arith, if◌then◌else◌, get_elem?,
}
use libight.Prelude.Bytes.{Bytes, beq_refl}
use libight.Common.Error.{Error, is_error}
use libight.Report.Errors.{duplicate_entry_submit_error}
use libight.Report.BaseReporter.{
  BaseReporter, make, Begun, answers, runs_cc, no_error_with, open_begin, open_end,
  write_entry_begin, write_entry_end, close_begin, close_end,
}

-- A call whose continuation runs.
pub data Op : Type 0 where
  opens closes : Op
  writes : Bytes → Op

pub record System : Type 0 where
  pub reporter : BaseReporter
  pub pending : List Op
  -- the entries that were handed to a continuation, oldest first
  pub submitted : List Bytes

abbrev pub start : System
start = record { reporter = make; pending = []; submitted = [] }

abbrev pub begin : BaseReporter → Op → Begun
begin r opens = open_begin r
begin r closes = close_begin r
begin r (writes e) = write_entry_begin r e

abbrev pub end_of : BaseReporter → Op → Error → BaseReporter × Error
end_of r opens failure = open_end r failure
end_of r closes failure = close_end r failure
end_of r (writes e) failure = write_entry_end r e failure

abbrev entries_of : Op → List Bytes
entries_of (writes e) = e ∷ []
entries_of _ = []

abbrev pub remove_at : ℕ → List Op → List Op
remove_at i [] = []
remove_at zero (x ∷ xs) = xs
remove_at (suc i) (x ∷ xs) = x ∷ remove_at i xs

pub data Step (s : System) : System → Type 0 where
  call :
      (op : Op)
      → begin s.reporter op ≡ runs_cc
      → Step s
          (record s { pending = s.pending ++ op ∷ []; submitted = s.submitted ++ entries_of op })
  refuse : (op : Op) (e : Error) → begin s.reporter op ≡ answers e → Step s s
  call_back :
      (i : ℕ) (op : Op) (failure : Error)
      → get_elem? s.pending i ≡ some op
      → Step s (record s {
        reporter = (end_of s.reporter op failure).0;
        pending = remove_at i s.pending;
      })

pub data Reach (s : System) : System → Type 0 where
  here : Reach s s
  next : {t u : System} → Reach s t → Step t u → Reach s u

abbrev IsOpen : System → Type 0
IsOpen s = (s.submitted ≡ []) ⊎ (s.reporter.openned ≡ true)

-- After an entry was handed over, submitting it again is answered as a duplicate if it was stored, and
-- runs the continuation again if it was not.
pub write_entry_again :
    (r : BaseReporter) (e : Bytes) (result : Error)
    → write_entry_begin r e ≡ runs_cc
    → write_entry_begin (write_entry_end r e result).0 e
      ≡ (if is_error result then runs_cc else answers (no_error_with duplicate_entry_submit_error))
unfolding write_entry_begin write_entry_end
write_entry_again r e result h = ground (arith, beq_refl e)
