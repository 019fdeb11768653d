-- ===== src/Ntstatus.antt =====
-- ntstatus.rs: the NTSTATUS codes, under their names without the prefix STATUS_.
use rust_smb_server.Prelude.{ℕ}

abbrev pub success : ℕ
success = 0x0000_0000

abbrev pub pending : ℕ
pending = 0x0000_0103

abbrev pub notify_cleanup : ℕ
notify_cleanup = 0x0000_010b

abbrev pub notify_enum_dir : ℕ
notify_enum_dir = 0x0000_010c

abbrev pub buffer_overflow : ℕ
buffer_overflow = 0x8000_0005

abbrev pub no_more_files : ℕ
no_more_files = 0x8000_0006

abbrev pub invalid_handle : ℕ
invalid_handle = 0xc000_0008

abbrev pub invalid_parameter : ℕ
invalid_parameter = 0xc000_000d

abbrev pub no_such_file : ℕ
no_such_file = 0xc000_000f

abbrev pub object_name_not_found : ℕ
object_name_not_found = 0xc000_000f

abbrev pub invalid_device_request : ℕ
invalid_device_request = 0xc000_0010

abbrev pub end_of_file : ℕ
end_of_file = 0xc000_0011

abbrev pub more_processing_required : ℕ
more_processing_required = 0xc000_0016

abbrev pub access_denied : ℕ
access_denied = 0xc000_0022

abbrev pub buffer_too_small : ℕ
buffer_too_small = 0xc000_0023

abbrev pub object_name_invalid : ℕ
object_name_invalid = 0xc000_0033

abbrev pub object_name_collision : ℕ
object_name_collision = 0xc000_0035

abbrev pub object_path_not_found : ℕ
object_path_not_found = 0xc000_003a

abbrev pub object_path_syntax_bad : ℕ
object_path_syntax_bad = 0xc000_003b

abbrev pub sharing_violation : ℕ
sharing_violation = 0xc000_0043

abbrev pub delete_pending : ℕ
delete_pending = 0xc000_0056

abbrev pub logon_failure : ℕ
logon_failure = 0xc000_006d

abbrev pub fs_driver_required : ℕ
fs_driver_required = 0xc000_019c

abbrev pub not_supported : ℕ
not_supported = 0xc000_00bb

abbrev pub file_is_a_directory : ℕ
file_is_a_directory = 0xc000_00ba

abbrev pub network_name_deleted : ℕ
network_name_deleted = 0xc000_00c9

abbrev pub bad_network_name : ℕ
bad_network_name = 0xc000_00cc

abbrev pub unexpected_io_error : ℕ
unexpected_io_error = 0xc000_009c

abbrev pub directory_not_empty : ℕ
directory_not_empty = 0xc000_0101

abbrev pub not_a_directory : ℕ
not_a_directory = 0xc000_0103

abbrev pub user_session_deleted : ℕ
user_session_deleted = 0xc000_015c

abbrev pub info_length_mismatch : ℕ
info_length_mismatch = 0xc000_0004

abbrev pub file_closed : ℕ
file_closed = 0xc000_0128

abbrev pub invalid_info_class : ℕ
invalid_info_class = 0xc000_0003

abbrev pub no_eas_on_file : ℕ
no_eas_on_file = 0xc000_0052
