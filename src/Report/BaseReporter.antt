-- ===== src/Report/BaseReporter.antt =====
-- `BaseReporter` of report/base_reporter.hpp and report/base_reporter.cpp.
-- Each operation is two steps: what it does when called, and what it does when the continuation `cc`
-- calls back; other calls may come in between. An entry is its serialization, `entry.dump()`.
pub mod Lifecycle
use libight.Prelude.{Bool, true, false, not, List, [], ◌∷◌, if◌then◌else◌}
use libight.Prelude.Bytes.{Bytes, beq}
use libight.Common.Error.{Error, no_error, is_error, with_child}
use libight.Report.Errors.{
  report_already_open_error, report_not_open_error, report_already_closed_error,
  duplicate_entry_submit_error,
}

pub record BaseReporter : Type 0 where
  pub openned : Bool
  pub closed : Bool
  pub prev_entry : Bytes

-- `BaseReporter::make`
abbrev pub make : BaseReporter
make = record { openned = false; closed = false; prev_entry = [] }

-- A call either answers at once or runs its continuation.
pub data Begun : Type 0 where
  answers : Error → Begun
  runs_cc : Begun

-- `NoError(e)`
abbrev pub no_error_with : Error → Error
no_error_with e = with_child 0 [] e

unfoldable pub open_begin : BaseReporter → Begun
open_begin r = if r.openned then answers (no_error_with report_already_open_error) else runs_cc

unfoldable pub open_end : BaseReporter → Error → BaseReporter × Error
open_end r failure =
    if is_error failure then (r, failure) else (record r { openned = true }, no_error)

unfoldable pub write_entry_begin : BaseReporter → Bytes → Begun
write_entry_begin r serio =
    if not r.openned
    then answers report_not_open_error
    else if r.closed
    then answers report_already_closed_error
    else if beq serio r.prev_entry
    then answers (no_error_with duplicate_entry_submit_error)
    else runs_cc

unfoldable pub write_entry_end : BaseReporter → Bytes → Error → BaseReporter × Error
write_entry_end r serio failure =
    if is_error failure then (r, failure) else (record r { prev_entry = serio }, no_error)

unfoldable pub close_begin : BaseReporter → Begun
close_begin r = if r.closed then answers (no_error_with report_already_closed_error) else runs_cc

unfoldable pub close_end : BaseReporter → Error → BaseReporter × Error
close_end r failure =
    if is_error failure then (r, failure) else (record r { closed = true }, no_error)
