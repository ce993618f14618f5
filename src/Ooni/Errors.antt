-- ===== src/Ooni/Errors.antt =====
-- The errors of ooni/error.hpp that the modelled code uses.
use libight.Prelude.Bytes.{Bytes, codes}
use libight.Prelude.{ℕ, ◌+◌}
use libight.Common.Error.{Error, plain, with_text}

-- `MK_ERR_OONI`
abbrev pub err_ooni : ℕ → ℕ
err_ooni x = 6000 + x

abbrev pub cannot_read_any_input_file_error : Error
cannot_read_any_input_file_error = plain (err_ooni 0) (codes "cannot_read_any_input_file")

abbrev pub missing_required_input_file_error : Error
missing_required_input_file_error = plain (err_ooni 1) (codes "missing_required_input_file")

abbrev pub missing_collector_base_url_error : Error
missing_collector_base_url_error = plain (err_ooni 2) (codes "missing_collector_base_url")

abbrev pub cannot_open_report_error : Error
cannot_open_report_error = plain (err_ooni 3) (codes "cannot_open_report")

abbrev pub missing_mandatory_key_error : Error
missing_mandatory_key_error = plain (err_ooni 4) (codes "missing_mandatory_key")

abbrev pub invalid_mandatory_value_error : Bytes → Error
invalid_mandatory_value_error key = with_text (err_ooni 5) (codes "invalid_mandatory_value") key
