-- ===== src/Proto/Messages/Write.antt =====
-- proto/messages/write.rs
use rust_smb_server.Prelude.{ℕ, refl, List, length}
use rust_smb_server.Proto.Layout.{Layout, uint, array, follow, fields, or_one}
use rust_smb_server.Proto.FileId.{FileId, file_id_layout}

pub record WriteRequest : Type 0 where
  pub structure_size : ℕ
  pub data_offset : ℕ
  pub length : ℕ
  pub offset : ℕ
  pub file_id : FileId
  pub channel : ℕ
  pub remaining_bytes : ℕ
  pub write_channel_info_offset : ℕ
  pub write_channel_info_length : ℕ
  pub flags : ℕ
  pub data_bytes : List ℕ

unfoldable pub write_request : Layout WriteRequest
write_request =
    fields
      (λ (
        structure_size,
        (
          data_offset,
          (
            length,
            (
              offset,
              (
                file_id,
                (
                  channel,
                  (
                    remaining_bytes,
                    (write_channel_info_offset, (write_channel_info_length, (flags, data_bytes))),
                  ),
                ),
              ),
            ),
          ),
        ),
      ).
        record {
          structure_size = structure_size;
          data_offset = data_offset;
          length = length;
          offset = offset;
          file_id = file_id;
          channel = channel;
          remaining_bytes = remaining_bytes;
          write_channel_info_offset = write_channel_info_offset;
          write_channel_info_length = write_channel_info_length;
          flags = flags;
          data_bytes = data_bytes;
        })
      (λ r. (
        r.structure_size,
        (
          r.data_offset,
          (
            r.length,
            (
              r.offset,
              (
                r.file_id,
                (
                  r.channel,
                  (
                    r.remaining_bytes,
                    (
                      r.write_channel_info_offset,
                      (r.write_channel_info_length, (r.flags, r.data_bytes)),
                    ),
                  ),
                ),
              ),
            ),
          ),
        ),
      ))
      (λ r. refl)
      (follow (uint 2) (λ _. follow (uint 2) (λ _. follow (uint 4) (λ length. follow (uint 8) (λ _.
        follow file_id_layout (λ _. follow (uint 4) (λ _. follow (uint 4) (λ _.
          follow (uint 2)
            (λ _. follow (uint 2) (λ _. follow (uint 4) (λ _. array (or_one length))))))))))))

pub record WriteResponse : Type 0 where
  pub structure_size : ℕ
  pub reserved : ℕ
  pub count : ℕ
  pub remaining : ℕ
  pub write_channel_info_offset : ℕ
  pub write_channel_info_length : ℕ

unfoldable pub write_response : Layout WriteResponse
write_response =
    fields
      (λ (
        structure_size,
        (reserved, (count, (remaining, (write_channel_info_offset, write_channel_info_length)))),
      ).
        record {
          structure_size = structure_size;
          reserved = reserved;
          count = count;
          remaining = remaining;
          write_channel_info_offset = write_channel_info_offset;
          write_channel_info_length = write_channel_info_length;
        })
      (λ r. (
        r.structure_size,
        (
          r.reserved,
          (r.count, (r.remaining, (r.write_channel_info_offset, r.write_channel_info_length))),
        ),
      ))
      (λ r. refl)
      (follow (uint 2) (λ _.
        follow (uint 2)
          (λ _. follow (uint 4) (λ _. follow (uint 4) (λ _. follow (uint 2) (λ _. uint 2))))))

-- `WriteResponse::new`
abbrev pub new_write_response : ℕ → WriteResponse
new_write_response count = record {
  structure_size = 17;
  reserved = 0;
  count = count;
  remaining = 0;
  write_channel_info_offset = 0;
  write_channel_info_length = 0;
}
