-- ===== src/Witnesses/FileIds.antt =====
-- The file ids of requests at a concrete input.
use rust_smb_server.Prelude.{[], ◌++◌, ◌≡◌, refl, replicate, some}
use rust_smb_server.Proto.Wire.{Binrw, little_endian}
use rust_smb_server.Proto.Layout.{write}
use rust_smb_server.Proto.Header.Opcode
use rust_smb_server.Proto.Messages.Close.{CloseRequest, close_request}
use rust_smb_server.Proto.Messages.Flush.{FlushRequest, flush_request}
use rust_smb_server.Proto.Messages.Lock.{LockRequest, lock_request}
use rust_smb_server.Proto.Messages.Ioctl.{IoctlRequest, ioctl_request}
use rust_smb_server.Proto.Messages.QueryDirectory.{QueryDirectoryRequest, query_directory_request}
use rust_smb_server.Proto.Messages.ChangeNotify.{ChangeNotifyRequest, change_notify_request}
use rust_smb_server.Proto.Messages.OplockBreak.{OplockBreakNotification, oplock_break_notification}
use rust_smb_server.Proto.Messages.Read.{ReadRequest, read_request}
use rust_smb_server.Proto.Messages.Write.{WriteRequest, write_request}
use rust_smb_server.Proto.Messages.QueryInfo.{QueryInfoRequest, query_info_request}
use rust_smb_server.Proto.Messages.SetInfo.{SetInfoRequest, set_info_request}
use rust_smb_server.Proto.Messages.Create.{CreateResponse, create_response}
use rust_smb_server.Proto.Header
use rust_smb_server.Proto.Header.{Smb2Header, sync_tail}
use rust_smb_server.Dispatch.Compound.{file_id_body_offset, capture_create_file_id}
use rust_smb_server.Dispatch.Compound.FileIds.{
  FileIdAt, file_id_bytes, file_id_body_offset-FileIdAt,
}

instance abbrev wire : Binrw
wire = little_endian

abbrev blank_close_request : CloseRequest
blank_close_request = record {
  structure_size = 0;
  flags = 0;
  reserved = 0;
  file_id = record { persistent = 1; volatile = 2 };
}

abbrev blank_flush_request : FlushRequest
blank_flush_request = record {
  structure_size = 0;
  reserved1 = 0;
  reserved2 = 0;
  file_id_persistent = 1;
  file_id_volatile = 2;
}

abbrev blank_lock_request : LockRequest
blank_lock_request = record {
  structure_size = 0;
  lock_count = 0;
  lock_sequence = 0;
  file_id = record { persistent = 1; volatile = 2 };
  locks = [];
}

abbrev blank_ioctl_request : IoctlRequest
blank_ioctl_request = record {
  structure_size = 0;
  reserved = 0;
  ctl_code = 0;
  file_id = record { persistent = 1; volatile = 2 };
  input_offset = 0;
  input_count = 0;
  max_input_response = 0;
  output_offset = 0;
  output_count = 0;
  max_output_response = 0;
  flags = 0;
  reserved2 = 0;
  input = [];
}

abbrev blank_query_directory_request : QueryDirectoryRequest
blank_query_directory_request = record {
  structure_size = 0;
  file_information_class = 0;
  flags = 0;
  file_index = 0;
  file_id = record { persistent = 1; volatile = 2 };
  file_name_offset = 0;
  file_name_length = 0;
  output_buffer_length = 0;
  file_name = [];
}

abbrev blank_change_notify_request : ChangeNotifyRequest
blank_change_notify_request = record {
  structure_size = 0;
  flags = 0;
  output_buffer_length = 0;
  file_id = record { persistent = 1; volatile = 2 };
  completion_filter = 0;
  reserved = 0;
}

abbrev blank_oplock_break_notification : OplockBreakNotification
blank_oplock_break_notification = record {
  structure_size = 0;
  oplock_level = 0;
  reserved = 0;
  reserved2 = 0;
  file_id = record { persistent = 1; volatile = 2 };
}

abbrev blank_read_request : ReadRequest
blank_read_request = record {
  structure_size = 0;
  padding = 0;
  flags = 0;
  length = 0;
  offset = 0;
  file_id = record { persistent = 1; volatile = 2 };
  minimum_count = 0;
  channel = 0;
  remaining_bytes = 0;
  read_channel_info_offset = 0;
  read_channel_info_length = 0;
  buffer = [];
}

abbrev blank_write_request : WriteRequest
blank_write_request = record {
  structure_size = 0;
  data_offset = 0;
  length = 0;
  offset = 0;
  file_id = record { persistent = 1; volatile = 2 };
  channel = 0;
  remaining_bytes = 0;
  write_channel_info_offset = 0;
  write_channel_info_length = 0;
  flags = 0;
  data_bytes = [];
}

abbrev blank_query_info_request : QueryInfoRequest
blank_query_info_request = record {
  structure_size = 0;
  info_type = 0;
  file_information_class = 0;
  output_buffer_length = 0;
  input_buffer_offset = 0;
  reserved = 0;
  input_buffer_length = 0;
  additional_information = 0;
  flags = 0;
  file_id = record { persistent = 1; volatile = 2 };
  input_buffer = [];
}

abbrev blank_set_info_request : SetInfoRequest
blank_set_info_request = record {
  structure_size = 0;
  info_type = 0;
  file_information_class = 0;
  buffer_length = 0;
  buffer_offset = 0;
  reserved = 0;
  additional_information = 0;
  file_id = record { persistent = 1; volatile = 2 };
  buffer = [];
}

abbrev blank_create_response : CreateResponse
blank_create_response = record {
  structure_size = 0;
  oplock_level = 0;
  flags = 0;
  create_action = 0;
  creation_time = 0;
  last_access_time = 0;
  last_write_time = 0;
  change_time = 0;
  allocation_size = 0;
  end_of_file = 0;
  file_attributes = 0;
  reserved2 = 0;
  file_id = record { persistent = 1; volatile = 2 };
  create_contexts_offset = 0;
  create_contexts_length = 0;
  create_contexts = [];
}

abbrev create_reply_header : Smb2Header
create_reply_header = record {
  credit_charge = 1;
  channel_sequence_status = 0;
  command = Opcode.create;
  credit_request_response = 1;
  flags = 1;
  next_command = 0;
  message_id = 7;
  tail = sync_tail 0 5;
  session_id = 9;
  signature = replicate 16 0;
}

file_id_body_offset-FileIdAt_example :
    FileIdAt
      (file_id_body_offset Opcode.close)
      (write close_request blank_close_request)
      blank_close_request.file_id.persistent
      blank_close_request.file_id.volatile
    × FileIdAt
        (file_id_body_offset Opcode.flush)
        (write flush_request blank_flush_request)
        blank_flush_request.file_id_persistent
        blank_flush_request.file_id_volatile
    × FileIdAt
        (file_id_body_offset Opcode.lock)
        (write lock_request blank_lock_request)
        blank_lock_request.file_id.persistent
        blank_lock_request.file_id.volatile
    × FileIdAt
        (file_id_body_offset Opcode.ioctl)
        (write ioctl_request blank_ioctl_request)
        blank_ioctl_request.file_id.persistent
        blank_ioctl_request.file_id.volatile
    × FileIdAt
        (file_id_body_offset Opcode.query_directory)
        (write query_directory_request blank_query_directory_request)
        blank_query_directory_request.file_id.persistent
        blank_query_directory_request.file_id.volatile
    × FileIdAt
        (file_id_body_offset Opcode.change_notify)
        (write change_notify_request blank_change_notify_request)
        blank_change_notify_request.file_id.persistent
        blank_change_notify_request.file_id.volatile
    × FileIdAt
        (file_id_body_offset Opcode.oplock_break)
        (write oplock_break_notification blank_oplock_break_notification)
        blank_oplock_break_notification.file_id.persistent
        blank_oplock_break_notification.file_id.volatile
    × FileIdAt
        (file_id_body_offset Opcode.read)
        (write read_request blank_read_request)
        blank_read_request.file_id.persistent
        blank_read_request.file_id.volatile
    × FileIdAt
        (file_id_body_offset Opcode.write)
        (write write_request blank_write_request)
        blank_write_request.file_id.persistent
        blank_write_request.file_id.volatile
    × FileIdAt
        (file_id_body_offset Opcode.query_info)
        (write query_info_request blank_query_info_request)
        blank_query_info_request.file_id.persistent
        blank_query_info_request.file_id.volatile
    × FileIdAt
        (file_id_body_offset Opcode.set_info)
        (write set_info_request blank_set_info_request)
        blank_set_info_request.file_id.persistent
        blank_set_info_request.file_id.volatile
    × (capture_create_file_id
          (Header.write create_reply_header ++ write create_response blank_create_response)
        ≡ some (file_id_bytes 1 2))
file_id_body_offset-FileIdAt_example =
    file_id_body_offset-FileIdAt blank_close_request blank_flush_request blank_lock_request
      blank_ioctl_request blank_query_directory_request blank_change_notify_request
      blank_oplock_break_notification blank_read_request blank_write_request
      blank_query_info_request blank_set_info_request blank_create_response create_reply_header refl
      refl
