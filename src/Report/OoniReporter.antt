-- ===== src/Report/OoniReporter.antt =====
-- `OoniReporter` of report/ooni_reporter.cpp. The collector is a parameter: what it answers.
use libight.Prelude.{Bool, true, false, not, [], if◌then◌else◌}
use libight.Prelude.Bytes.{Bytes, beq}
use libight.Common.Error.{Error, is_error}
use libight.Report.Errors.{missing_report_id_error}

pub record OoniReporter : Type 0 where
  pub report_id : Bytes

-- The continuation of `open`, when the collector answers with an error or a report ID.
unfoldable pub ooni_open : OoniReporter → Error → Bytes → OoniReporter × Error
ooni_open r failure rid =
    if not (is_error failure) then (record r { report_id = rid }, failure) else (r, failure)

-- Whether the collector is asked, and the error that is passed on.
unfoldable pub ooni_write_entry : OoniReporter → Error → Bool × Error
ooni_write_entry r e = if beq r.report_id [] then (false, missing_report_id_error) else (true, e)

unfoldable pub ooni_close : OoniReporter → Error → Bool × Error
ooni_close r e = if beq r.report_id [] then (false, missing_report_id_error) else (true, e)
