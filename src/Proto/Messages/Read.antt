-- ===== src/Proto/Messages/Read.antt =====
-- proto/messages/read.rs
use rust_smb_server.Prelude.{ℕ, refl, List, length}
use rust_smb_server.Proto.Layout.{Layout, uint, array, follow, fields, or_one}
use rust_smb_server.Proto.FileId.{FileId, file_id_layout}

pub record ReadRequest : Type 0 where
  pub structure_size : ℕ
  pub padding : ℕ
  pub flags : ℕ
  pub length : ℕ
  pub offset : ℕ
  pub file_id : FileId
  pub minimum_count : ℕ
  pub channel : ℕ
  pub remaining_bytes : ℕ
  pub read_channel_info_offset : ℕ
  pub read_channel_info_length : ℕ
  pub buffer : List ℕ

unfoldable pub read_request : Layout ReadRequest
read_request =
    fields
      (λ (
        structure_size,
        (
          padding,
          (
            flags,
            (
              length,
              (
                offset,
                (
                  file_id,
                  (
                    minimum_count,
                    (
                      channel,
                      (
                        remaining_bytes,
                        (read_channel_info_offset, (read_channel_info_length, buffer)),
                      ),
                    ),
                  ),
                ),
              ),
            ),
          ),
        ),
      ).
        record {
          structure_size = structure_size;
          padding = padding;
          flags = flags;
          length = length;
          offset = offset;
          file_id = file_id;
          minimum_count = minimum_count;
          channel = channel;
          remaining_bytes = remaining_bytes;
          read_channel_info_offset = read_channel_info_offset;
          read_channel_info_length = read_channel_info_length;
          buffer = buffer;
        })
      (λ r. (
        r.structure_size,
        (
          r.padding,
          (
            r.flags,
            (
              r.length,
              (
                r.offset,
                (
                  r.file_id,
                  (
                    r.minimum_count,
                    (
                      r.channel,
                      (
                        r.remaining_bytes,
                        (r.read_channel_info_offset, (r.read_channel_info_length, r.buffer)),
                      ),
                    ),
                  ),
                ),
              ),
            ),
          ),
        ),
      ))
      (λ r. refl)
      (follow (uint 2) (λ _. follow (uint 1) (λ _. follow (uint 1) (λ _. follow (uint 4) (λ _.
        follow (uint 8) (λ _. follow file_id_layout (λ _. follow (uint 4) (λ _.
          follow (uint 4) (λ _. follow (uint 4) (λ _. follow (uint 2) (λ _.
            follow (uint 2)
              (λ read_channel_info_length. array (or_one read_channel_info_length)))))))))))))

pub record ReadResponse : Type 0 where
  pub structure_size : ℕ
  pub data_offset : ℕ
  pub reserved : ℕ
  pub data_length : ℕ
  pub data_remaining : ℕ
  pub flags : ℕ
  pub data_bytes : List ℕ

unfoldable pub read_response : Layout ReadResponse
read_response =
    fields
      (λ (
        structure_size,
        (data_offset, (reserved, (data_length, (data_remaining, (flags, data_bytes))))),
      ).
        record {
          structure_size = structure_size;
          data_offset = data_offset;
          reserved = reserved;
          data_length = data_length;
          data_remaining = data_remaining;
          flags = flags;
          data_bytes = data_bytes;
        })
      (λ r. (
        r.structure_size,
        (r.data_offset, (r.reserved, (r.data_length, (r.data_remaining, (r.flags, r.data_bytes))))),
      ))
      (λ r. refl)
      (follow (uint 2) (λ _. follow (uint 1) (λ _. follow (uint 1) (λ _.
        follow (uint 4)
          (λ data_length. follow (uint 4) (λ _. follow (uint 4) (λ _. array data_length)))))))
