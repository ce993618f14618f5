-- ===== src/Ndt/Errors.antt =====
-- The errors of ndt/error.hpp. Those that the code makes from another error take it as their child.
use libight.Prelude.Bytes.{codes}
use libight.Common.Error.{Error, plain, with_child, err_ndt}

abbrev pub reading_message_type_length_error : Error → Error
reading_message_type_length_error = with_child (err_ndt 0) (codes "ndt_cannot_read_type_length")

abbrev pub reading_message_payload_error : Error → Error
reading_message_payload_error = with_child (err_ndt 1) (codes "ndt_cannot_read_payload")

abbrev pub message_too_long_error : Error
message_too_long_error = plain (err_ndt 2) (codes "ndt_message_too_long")

abbrev pub connect_control_connection_error : Error → Error
connect_control_connection_error =
    with_child (err_ndt 3) (codes "ndt_cannot_establish_control_connection")

abbrev pub format_extended_login_message_error : Error → Error
format_extended_login_message_error =
    with_child (err_ndt 4) (codes "ndt_cannot_format_extended_login_message")

abbrev pub write_extended_login_message_error : Error → Error
write_extended_login_message_error =
    with_child (err_ndt 5) (codes "ndt_cannot_write_extended_login_message")

abbrev pub reading_kickoff_message_error : Error → Error
reading_kickoff_message_error = with_child (err_ndt 6) (codes "ndt_cannot_read_kickoff_message")

abbrev pub invalid_kickoff_message_error : Error
invalid_kickoff_message_error = plain (err_ndt 7) (codes "ndt_invalid_kickoff_message")

abbrev pub reading_srv_queue_message_error : Error → Error
reading_srv_queue_message_error = with_child (err_ndt 8) (codes "ndt_cannot_read_srv_queue_message")

abbrev pub not_srv_queue_message_error : Error
not_srv_queue_message_error = plain (err_ndt 9) (codes "ndt_missing_expected_srv_queue_message")

abbrev pub invalid_srv_queue_message_error : Error → Error
invalid_srv_queue_message_error = with_child (err_ndt 10) (codes "ndt_invalid_srv_queue_message")

abbrev pub queue_server_fault_error : Error
queue_server_fault_error = plain (err_ndt 11) (codes "ndt_server_queue_fault")

abbrev pub reading_server_version_message_error : Error → Error
reading_server_version_message_error =
    with_child (err_ndt 12) (codes "ndt_cannot_read_server_version")

abbrev pub not_server_version_message_error : Error
not_server_version_message_error = plain (err_ndt 13) (codes "ndt_missing_expected_server_version")

abbrev pub reading_tests_id_message_error : Error → Error
reading_tests_id_message_error = with_child (err_ndt 14) (codes "ndt_cannot_read_tests_id")

abbrev pub not_tests_id_message_error : Error
not_tests_id_message_error = plain (err_ndt 15) (codes "ndt_missing_expected_tests_id_message")

abbrev pub invalid_test_id_error : Error → Error
invalid_test_id_error = with_child (err_ndt 16) (codes "ndt_invalid_tests_id_message")

abbrev pub unknown_test_id_error : Error
unknown_test_id_error = plain (err_ndt 17) (codes "ndt_received_unknown_test_id")

abbrev pub reading_results_or_logout_error : Error → Error
reading_results_or_logout_error =
    with_child (err_ndt 19) (codes "ndt_cannot_read_results_or_logout_message")

abbrev pub not_results_or_logout_error : Error
not_results_or_logout_error =
    plain (err_ndt 20) (codes "ndt_missing_expected_results_or_logout_message")

abbrev pub waiting_close_error : Error → Error
waiting_close_error = with_child (err_ndt 21) (codes "ndt_error_while_waiting_for_close_message")

abbrev pub data_after_logout_error : Error
data_after_logout_error = plain (err_ndt 22) (codes "ndt_received_data_after_logout_message")

abbrev pub invalid_port_error : Error
invalid_port_error = plain (err_ndt 23) (codes "ndt_received_invalid_port")

abbrev pub reading_test_prepare_error : Error → Error
reading_test_prepare_error = with_child (err_ndt 25) (codes "ndt_cannot_read_test_prepare_message")

abbrev pub not_test_prepare_error : Error
not_test_prepare_error = plain (err_ndt 26) (codes "ndt_missing_expected_test_prepare_message")

abbrev pub connect_test_connection_error : Error → Error
connect_test_connection_error =
    with_child (err_ndt 27) (codes "ndt_cannot_establish_testing_connection")

abbrev pub reading_test_start_error : Error → Error
reading_test_start_error = with_child (err_ndt 28) (codes "ndt_cannot_read_test_start_message")

abbrev pub not_test_start_error : Error
not_test_start_error = plain (err_ndt 29) (codes "ndt_missing_expected_test_start_error")

abbrev pub reading_test_msg_error : Error → Error
reading_test_msg_error = with_child (err_ndt 30) (codes "ndt_cannot_read_test_msg_message")

abbrev pub not_test_msg_error : Error
not_test_msg_error = plain (err_ndt 31) (codes "ndt_missing_expected_test_msg")

abbrev pub reading_test_finalize_error : Error → Error
reading_test_finalize_error =
    with_child (err_ndt 32) (codes "ndt_cannot_read_test_finalize_message")

abbrev pub not_test_finalize_error : Error
not_test_finalize_error = plain (err_ndt 33) (codes "ndt_missing_expected_test_finalize_message")

abbrev pub serializing_client_version_error : Error
serializing_client_version_error = plain (err_ndt 34) (codes "ndt_cannot_serialize_client_version")

abbrev pub serializing_client_application_error : Error
serializing_client_application_error =
    plain (err_ndt 35) (codes "ndt_cannot_serialize_client_application")

abbrev pub serializing_final_meta_error : Error
serializing_final_meta_error = plain (err_ndt 36) (codes "ndt_cannot_serialize_final_meta_message")

abbrev pub writing_meta_error : Error → Error
writing_meta_error = with_child (err_ndt 37) (codes "ndt_cannot_write_meta_message")

abbrev pub serializing_test_msg_error : Error
serializing_test_msg_error = plain (err_ndt 38) (codes "ndt_cannot_serialize_test_msg_message")

abbrev pub writing_test_msg_error : Error → Error
writing_test_msg_error = with_child (err_ndt 39) (codes "ndt_cannot_write_test_msg_message")

abbrev pub queue_server_busy_error : Error
queue_server_busy_error = plain (err_ndt 40) (codes "ndt_server_busy")

abbrev pub format_msg_waiting_error : Error → Error
format_msg_waiting_error = with_child (err_ndt 41) (codes "ndt_cannot_format_msg_waiting_message")

abbrev pub invalid_duration_error : Error
invalid_duration_error = plain (err_ndt 42) (codes "ndt_invalid_duration_setting")

abbrev pub invalid_snaps_delay_error : Error
invalid_snaps_delay_error = plain (err_ndt 43) (codes "ndt_invalid_snaps_delay_setting")

abbrev pub invalid_num_streams_error : Error
invalid_num_streams_error = plain (err_ndt 44) (codes "ndt_invalid_num_streams_setting")
