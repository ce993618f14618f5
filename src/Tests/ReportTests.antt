-- ===== src/Tests/ReportTests.antt =====
-- report/base_reporter.cpp and report/file_reporter.cpp at concrete inputs.
use libight.Prelude.{◌≡◌, refl, true, false, [], ◌∷◌, if◌then◌else◌}
use libight.Prelude.Bytes.{codes, beq}
use libight.Common.Error.{generic_error, is_error}
use libight.Report.Errors.{duplicate_entry_submit_error}
use libight.Report.BaseReporter.{
  BaseReporter, answers, runs_cc, no_error_with, write_entry_begin, write_entry_end,
}
use libight.Report.BaseReporter.Lifecycle.{System, opens, writes, write_entry_again}
use libight.Report.FileReporter.{Flags}

abbrev open_and_write : System
open_and_write = record {
  reporter = record { openned = true; closed = false; prev_entry = [] };
  pending = writes (codes "{}") ∷ [];
  submitted = codes "{}" ∷ [];
}

abbrev shut : System
shut = record {
  reporter = record { openned = true; closed = true; prev_entry = [] };
  pending = opens ∷ [];
  submitted = codes "{}" ∷ [];
}

abbrev shut_later : System
shut_later = record shut { pending = [] }

abbrev opened : BaseReporter
opened = record { openned = true; closed = false; prev_entry = [] }

accepted : write_entry_begin opened (codes "{}") ≡ runs_cc
unfolding write_entry_begin beq
accepted = refl

write_entry_again_example :
    write_entry_begin (write_entry_end opened (codes "{}") generic_error).0 (codes "{}") ≡ (
      if is_error generic_error
      then runs_cc
      else answers (no_error_with duplicate_entry_submit_error))
write_entry_again_example = write_entry_again opened (codes "{}") generic_error accepted

abbrev bad : Flags
bad = record { eofbit = false; badbit = true; failbit = false }

abbrev fine : Flags
fine = record { eofbit = false; badbit = false; failbit = false }
