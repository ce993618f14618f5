-- ===== src/Report/FileReporter.antt =====
-- `FileReporter` of report/file_reporter.cpp. The stream is the standard library's: an operation
-- takes the flags that the stream has after its own call.
use libight.Prelude.{Bool, true, false, not, ◌||◌, ◌≡◌, ◌↔◌, if◌then◌else◌, arith}
use libight.Prelude.Bytes.{Bytes, codes, beq}
use libight.Common.Error.{Error, no_error, generic_error, is_error}
use libight.Report.Errors.{report_eof_error, report_io_error, report_logical_error}

-- `eofbit`, `badbit` and `failbit`.
pub record Flags : Type 0 where
  pub eofbit : Bool
  pub badbit : Bool
  pub failbit : Bool

abbrev pub good : Flags → Bool
good f = not (f.eofbit || f.badbit || f.failbit)

-- `fail()` also looks at `badbit`.
unfoldable pub map_error : Flags → Error
map_error file =
    if file.eofbit
    then report_eof_error
    else if file.badbit
    then report_io_error
    else if file.failbit || file.badbit
    then report_logical_error
    else generic_error

-- The continuation of `open`, given the flags after `file.open(filename)`.
unfoldable pub file_open : Bytes → Flags → Error
file_open filename opened =
    if beq filename (codes "-")
    then no_error
    else if not (good opened)
    then map_error opened
    else no_error

-- The continuation of `write_entry`, given the flags of `std::cout` or of the file after the write.
unfoldable pub file_write_entry : Bytes → Flags → Flags → Error
file_write_entry filename cout file =
    let frf = if beq filename (codes "-") then cout else file in
    if not (good frf) then map_error frf else no_error

-- The continuation of `close`, given the flags after `file.close()`.
unfoldable pub file_close : Bytes → Flags → Error
file_close filename closed =
    if beq filename (codes "-")
    then no_error
    else if not (good closed)
    then map_error closed
    else no_error

-- A write succeeds exactly when the stream that it went to is good.
pub file_write_entry_iff :
    (filename : Bytes) (cout file : Flags)
    → (is_error (file_write_entry filename cout file) ≡ false)
      ↔ ((if beq filename (codes "-") then good cout else good file) ≡ true)
unfolding file_write_entry map_error
file_write_entry_iff filename cout file = (λ h. ground arith, λ h. ground arith)
