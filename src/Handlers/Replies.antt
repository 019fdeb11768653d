-- ===== src/Handlers/Replies.antt =====
-- The bodies of the responses that carry data: handlers/read.rs, handlers/query_info.rs,
-- handlers/query_directory.rs, handlers/session_setup.rs and handlers/ioctl.rs, each with the offset from
-- the start of the header at which the client finds the data.
use rust_smb_server.Prelude.{
  ℕ, ◌+◌, ◌%◌, ◌^◌, ◌<◌, ◌≡◌, sym, ap, ◌∙◌, Option, none, some, List, [], ◌++◌, append-nil,
  append_assoc, length, arith, length-append,
}
use rust_smb_server.Prelude.Bytes.{slice, le_bytes, slice-middle}
use rust_smb_server.Proto.Wire.{Binrw, length-write}
use rust_smb_server.Proto.Layout.{write}
use rust_smb_server.Proto.Dialect.{Dialect, as_u16}
use rust_smb_server.Proto.FileId.{file_id_layout}
use rust_smb_server.Proto.Messages.Read.{ReadResponse, read_response}
use rust_smb_server.Proto.Messages.QueryInfo.{QueryInfoResponse, query_info_response}
use rust_smb_server.Proto.Messages.QueryDirectory.{QueryDirectoryResponse, query_directory_response}
use rust_smb_server.Proto.Messages.SessionSetup.{SessionSetupResponse, session_setup_response}
use rust_smb_server.Proto.Messages.Ioctl.{IoctlRequest, IoctlResponse, ioctl_response}
use rust_smb_server.Handlers.Negotiate.{negotiate_capabilities, negotiate_security_mode}

abbrev pub standard_data_offset : ℕ
standard_data_offset = 0x50

unfoldable pub read_data_reply : List ℕ → ReadResponse
read_data_reply bytes = record {
  structure_size = 17;
  data_offset = standard_data_offset;
  reserved = 0;
  data_length = length bytes % 2 ^ 32;
  data_remaining = 0;
  flags = 0;
  data_bytes = bytes;
}

unfoldable pub query_info_reply : List ℕ → QueryInfoResponse
query_info_reply buf = record {
  structure_size = 9;
  output_buffer_offset = 64 + 8;
  output_buffer_length = length buf % 2 ^ 32;
  buffer = buf;
}

unfoldable pub query_directory_reply : List ℕ → QueryDirectoryResponse
query_directory_reply buf = record {
  structure_size = 9;
  output_buffer_offset = 64 + 8;
  output_buffer_length = length buf % 2 ^ 32;
  buffer = buf;
}

-- `build_session_setup_response`
unfoldable pub session_setup_reply : List ℕ → ℕ → SessionSetupResponse
session_setup_reply blob session_flags = record {
  structure_size = 9;
  session_flags = session_flags;
  security_buffer_offset = 64 + 8;
  security_buffer_length = length blob % 2 ^ 16;
  security_buffer = blob;
}

abbrev pub dialect_or_zero : Option Dialect → ℕ
dialect_or_zero none = 0
dialect_or_zero (some d) = as_u16 d

-- VALIDATE_NEGOTIATE_INFO: the capabilities, the server, the security mode and the dialect.
unfoldable pub negotiate_info : List ℕ → Option Dialect → List ℕ
negotiate_info server_guid dialect =
    le_bytes 4 negotiate_capabilities
    ++ (server_guid ++ (le_bytes 2 negotiate_security_mode ++ le_bytes 2 (dialect_or_zero dialect)))

unfoldable pub ioctl_reply : IoctlRequest → List ℕ → IoctlResponse
ioctl_reply req out = record {
  structure_size = 49;
  reserved = 0;
  ctl_code = req.ctl_code;
  file_id = req.file_id;
  input_offset = 0;
  input_count = 0;
  output_offset = 0x70;
  output_count = length out % 2 ^ 32;
  flags = 0;
  reserved2 = 0;
  output = out;
}

-- The data stands at the offset and has the length that the response says, behind a header.
abbrev pub Placed : List ℕ → List ℕ → ℕ → ℕ → List ℕ → Type 0
Placed header body offset n bytes = (slice (header ++ body) offset n ≡ bytes) × (length bytes ≡ n)

placed :
    (header fixed bytes : List ℕ) (offset n : ℕ)
    → length header + length fixed ≡ offset
    → length bytes ≡ n
    → Placed header (fixed ++ bytes) offset n bytes
placed header fixed bytes offset n at_offset size =
    let shape : header ++ (fixed ++ bytes) ≡ (header ++ fixed) ++ (bytes ++ []) =
      sym (append_assoc header fixed bytes)
      ∙ ap (λ bs. (header ++ fixed) ++ bs) (sym (append-nil bytes)) in
    (
      rw shape (
          slice-middle (header ++ fixed) bytes [] offset n (length-append header fixed ∙ at_offset)
            size),
      size,
    )

module _ ⦃b : Binrw⦄ (header : List ℕ) (whole : length header ≡ 64) where
  read_data_reply-Placed :
      (bytes : List ℕ)
      → length bytes < 2 ^ 32
      → let r = read_data_reply bytes in
        Placed header (write read_response r) r.data_offset r.data_length bytes
  unfolding read_data_reply read_response
  read_data_reply-Placed bytes small =
      let size : ℕ = length bytes % 2 ^ 32 in
      let fixed : List ℕ =
        b.write 2 17
        ++ (b.write 1 80 ++ (b.write 1 0 ++ (b.write 4 size ++ (b.write 4 0 ++ b.write 4 0)))) in
      let placed_there : Placed header (fixed ++ bytes) 80 size bytes =
        placed header fixed bytes 80 size
          (simp (length-append, length-write) (omega (arith, whole))) (omega arith) in
      (simp append_assoc at placed_there)

  output_reply-Placed :
      (bytes : List ℕ)
      → length bytes < 2 ^ 32
      → let r = query_info_reply bytes in
        let d = query_directory_reply bytes in
        Placed header
          (write query_info_response r)
          r.output_buffer_offset
          r.output_buffer_length
          bytes
        × Placed header
            (write query_directory_response d)
            d.output_buffer_offset
            d.output_buffer_length
            bytes
  unfolding query_info_reply query_directory_reply query_info_response query_directory_response
  output_reply-Placed bytes small =
      let size : ℕ = length bytes % 2 ^ 32 in
      let fixed : List ℕ = b.write 2 9 ++ (b.write 2 72 ++ b.write 4 size) in
      let placed_there : Placed header (fixed ++ bytes) 72 size bytes =
        placed header fixed bytes 72 size
          (simp (length-append, length-write) (omega (arith, whole))) (omega arith) in
      ((simp append_assoc at placed_there), (simp append_assoc at placed_there))

  session_setup_reply-Placed :
      (blob : List ℕ) (session_flags : ℕ)
      → length blob < 2 ^ 16
      → let r = session_setup_reply blob session_flags in
        Placed header
          (write session_setup_response r)
          r.security_buffer_offset
          r.security_buffer_length
          blob
  unfolding session_setup_reply session_setup_response
  session_setup_reply-Placed blob session_flags small =
      let size : ℕ = length blob % 2 ^ 16 in
      let fixed : List ℕ =
        b.write 2 9 ++ (b.write 2 session_flags ++ (b.write 2 72 ++ b.write 2 size)) in
      let placed_there : Placed header (fixed ++ blob) 72 size blob =
        placed header fixed blob 72 size (simp (length-append, length-write) (omega (arith, whole)))
          (omega arith) in
      (simp append_assoc at placed_there)

  ioctl_reply-Placed :
      (req : IoctlRequest) (out : List ℕ)
      → length out < 2 ^ 32
      → let r = ioctl_reply req out in
        Placed header (write ioctl_response r) r.output_offset r.output_count out
  unfolding ioctl_reply ioctl_response file_id_layout
  ioctl_reply-Placed req out small =
      let size : ℕ = length out % 2 ^ 32 in
      let fixed : List ℕ =
        b.write 2 49
        ++ (b.write 2 0
            ++ (b.write 4 req.ctl_code
                ++ ((b.write 8 req.file_id.persistent ++ b.write 8 req.file_id.volatile)
                    ++ (b.write 4 0
                        ++ (b.write 4 0
                            ++ (b.write 4 112
                                ++ (b.write 4 size ++ (b.write 4 0 ++ b.write 4 0)))))))) in
      let placed_there : Placed header (fixed ++ out) 112 size out =
        placed header fixed out 112 size (simp (length-append, length-write) (omega (arith, whole)))
          (omega arith) in
      simp append_assoc (simp append_assoc at placed_there)

  -- Behind a header of 64 bytes, the data of the READ, QUERY_INFO, QUERY_DIRECTORY,
  -- SESSION_SETUP and IOCTL responses stand at the offset and have the length that the
  -- response gives. The data are shorter than 2^32 bytes, and the security blob shorter than
  -- 2^16.
  pub replies-Placed :
      (bytes blob : List ℕ) (session_flags : ℕ) (req : IoctlRequest)
      → length bytes < 2 ^ 32
      → length blob < 2 ^ 16
      → let read = read_data_reply bytes in
        let info = query_info_reply bytes in
        let entries = query_directory_reply bytes in
        let setup = session_setup_reply blob session_flags in
        let control = ioctl_reply req bytes in
        Placed header (write read_response read) read.data_offset read.data_length bytes
        × Placed header
            (write query_info_response info)
            info.output_buffer_offset
            info.output_buffer_length
            bytes
        × Placed header
            (write query_directory_response entries)
            entries.output_buffer_offset
            entries.output_buffer_length
            bytes
        × Placed header
            (write session_setup_response setup)
            setup.security_buffer_offset
            setup.security_buffer_length
            blob
        × Placed header
            (write ioctl_response control)
            control.output_offset
            control.output_count
            bytes
  replies-Placed bytes blob session_flags req small small_blob =
      let (info, entries) = output_reply-Placed bytes small in
      (
        read_data_reply-Placed bytes small,
        info,
        entries,
        session_setup_reply-Placed blob session_flags small_blob,
        ioctl_reply-Placed req bytes small,
      )
