-- ===== src/Net/Errors.antt =====
-- The errors of net/error.hpp.
use libight.Prelude.Bytes.{codes}
use libight.Common.Error.{Error, plain, err_net}

abbrev pub eof_error : Error
eof_error = plain (err_net 0) (codes "eof_error")

abbrev pub connect_failed_error : Error
connect_failed_error = plain (err_net 3) (codes "connect_error")

abbrev pub dns_generic_error : Error
dns_generic_error = plain (err_net 4) (codes "dns_lookup_error")

abbrev pub bad_socks_version_error : Error
bad_socks_version_error = plain (err_net 5) (codes "socks_error")

abbrev pub socks_address_too_long_error : Error
socks_address_too_long_error = plain (err_net 6) (codes "socks_address_too_long")

abbrev pub socks_invalid_port_error : Error
socks_invalid_port_error = plain (err_net 7) (codes "socks_invalid_port")

abbrev pub eol_not_found_error : Error
eol_not_found_error = plain (err_net 9) (codes "eol_not_found")

abbrev pub line_too_long_error : Error
line_too_long_error = plain (err_net 10) (codes "line_too_long")

abbrev pub no_available_socks_authentication_error : Error
no_available_socks_authentication_error =
    plain (err_net 12) (codes "socks_no_available_authentication")

abbrev pub socks_error : Error
socks_error = plain (err_net 13) (codes "socks_error")

abbrev pub bad_socks_reserved_field_error : Error
bad_socks_reserved_field_error = plain (err_net 14) (codes "socks_bad_reserved_field")

abbrev pub bad_socks_atype_value_error : Error
bad_socks_atype_value_error = plain (err_net 15) (codes "socks_bad_address_type")

abbrev pub not_enough_data_error : Error
not_enough_data_error = plain (err_net 22) (codes "not_enough_data")

abbrev pub missing_ca_bundle_path_error : Error
missing_ca_bundle_path_error = plain (err_net 23) (codes "missing_ca_bundle_path")
