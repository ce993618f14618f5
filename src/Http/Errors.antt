-- ===== src/Http/Errors.antt =====
-- Errors of http/http.hpp.
use libight.Common.Error.{Error, plain, with_child, err_http}
use libight.Prelude.Bytes.{codes}

abbrev pub url_parser_error : Error
url_parser_error = plain (err_http 2) (codes "http_url_parser_error")

abbrev pub missing_url_schema_error : Error
missing_url_schema_error = plain (err_http 3) (codes "http_missing_url_schema")

abbrev pub missing_url_host_error : Error
missing_url_host_error = plain (err_http 4) (codes "http_missing_url_host")

abbrev pub missing_url_error : Error
missing_url_error = plain (err_http 5) (codes "http_missing_url")

abbrev pub http_request_failed_error : Error
http_request_failed_error = plain (err_http 6) (codes "http_request_failed")

abbrev pub header_parser_internal_error : Error
header_parser_internal_error = plain (err_http 7) (codes "http_parser_internal_error")

abbrev pub invalid_max_redirects_error : Error → Error
invalid_max_redirects_error e =
    with_child (err_http 8) (codes "http_invalid_max_redirects_setting") e

abbrev pub invalid_redirect_url_error : Error → Error
invalid_redirect_url_error e = with_child (err_http 9) (codes "http_invalid_redirect_url") e

abbrev pub empty_location_error : Error
empty_location_error = plain (err_http 10) (codes "http_empty_location_header")

abbrev pub too_many_redirects_error : Error
too_many_redirects_error = plain (err_http 11) (codes "http_too_many_redirects")

abbrev pub parser_invalid_eof_state_error : Error
parser_invalid_eof_state_error = plain (err_http 12) (codes "http_parser_invalid_eof_state")

abbrev pub parser_header_overflow_error : Error
parser_header_overflow_error = plain (err_http 13) (codes "http_parser_header_overflow")

abbrev pub parser_closed_connection_error : Error
parser_closed_connection_error = plain (err_http 14) (codes "http_parser_connection_closed")

abbrev pub parser_invalid_version_error : Error
parser_invalid_version_error = plain (err_http 15) (codes "http_parser_invalid_version")

abbrev pub parser_invalid_status_error : Error
parser_invalid_status_error = plain (err_http 16) (codes "http_parser_invalid_status")

abbrev pub parser_invalid_method_error : Error
parser_invalid_method_error = plain (err_http 17) (codes "http_parser_invalid_method")

abbrev pub parser_invalid_url_error : Error
parser_invalid_url_error = plain (err_http 18) (codes "http_parser_invalid_url")

abbrev pub parser_invalid_host_error : Error
parser_invalid_host_error = plain (err_http 19) (codes "http_parser_invalid_host")

abbrev pub parser_invalid_port_error : Error
parser_invalid_port_error = plain (err_http 20) (codes "http_parser_invalid_port")

abbrev pub parser_invalid_path_error : Error
parser_invalid_path_error = plain (err_http 21) (codes "http_parser_invalid_path")

abbrev pub parser_invalid_query_string_error : Error
parser_invalid_query_string_error = plain (err_http 22) (codes "http_parser_invalid_query_string")

abbrev pub parser_invalid_fragment_error : Error
parser_invalid_fragment_error = plain (err_http 23) (codes "http_parser_invalid_fragment")

abbrev pub parser_lf_expected_error : Error
parser_lf_expected_error = plain (err_http 24) (codes "http_parser_expected_lf")

abbrev pub parser_invalid_header_token_error : Error
parser_invalid_header_token_error = plain (err_http 25) (codes "http_parser_invalid_header_token")

abbrev pub parser_invalid_content_length_error : Error
parser_invalid_content_length_error =
    plain (err_http 26) (codes "http_parser_invalid_content_length")

abbrev pub parser_unexpected_content_length_error : Error
parser_unexpected_content_length_error =
    plain (err_http 27) (codes "http_parser_unexpected_content_length")

abbrev pub parser_invalid_chunk_size_error : Error
parser_invalid_chunk_size_error = plain (err_http 28) (codes "http_parser_invalid_chunk_size")

abbrev pub parser_invalid_constant_error : Error
parser_invalid_constant_error = plain (err_http 29) (codes "http_parser_invalid_constant")

abbrev pub parser_invalid_internal_state_error : Error
parser_invalid_internal_state_error =
    plain (err_http 30) (codes "http_parser_invalid_internal_state")

abbrev pub parser_strict_mode_assertion_error : Error
parser_strict_mode_assertion_error = plain (err_http 31) (codes "http_parser_strict_mode_assertion")

abbrev pub parser_paused_error : Error
parser_paused_error = plain (err_http 32) (codes "http_parser_paused")

abbrev pub generic_parser_error : Error
generic_parser_error = plain (err_http 33) (codes "http_parser_generic_error")
