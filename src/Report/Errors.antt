-- ===== src/Report/Errors.antt =====
-- The errors of report/error.hpp.
use libight.Prelude.Bytes.{codes}
use libight.Common.Error.{Error, plain, err_report}

abbrev pub report_already_open_error : Error
report_already_open_error = plain (err_report 0) (codes "report_already_open")

abbrev pub report_not_open_error : Error
report_not_open_error = plain (err_report 1) (codes "report_not_open")

abbrev pub report_already_closed_error : Error
report_already_closed_error = plain (err_report 2) (codes "report_already_closed")

abbrev pub report_eof_error : Error
report_eof_error = plain (err_report 3) (codes "report_eof_error")

abbrev pub report_io_error : Error
report_io_error = plain (err_report 4) (codes "report_io_error")

abbrev pub report_logical_error : Error
report_logical_error = plain (err_report 5) (codes "report_formatting_error")

abbrev pub duplicate_entry_submit_error : Error
duplicate_entry_submit_error = plain (err_report 6) (codes "duplicate_entry_submitted")

abbrev pub missing_report_id_error : Error
missing_report_id_error = plain (err_report 7) (codes "missing_report_id")
