-- ===== src/Proto/Messages/ChangeNotify.antt =====
-- proto/messages/change_notify.rs
use rust_smb_server.Prelude.{ℕ, refl, List}
use rust_smb_server.Proto.Layout.{Layout, uint, array, follow, fields}
use rust_smb_server.Proto.FileId.{FileId, file_id_layout}

pub record ChangeNotifyRequest : Type 0 where
  pub structure_size : ℕ
  pub flags : ℕ
  pub output_buffer_length : ℕ
  pub file_id : FileId
  pub completion_filter : ℕ
  pub reserved : ℕ

unfoldable pub change_notify_request : Layout ChangeNotifyRequest
change_notify_request =
    fields
      (λ (
        structure_size,
        (flags, (output_buffer_length, (file_id, (completion_filter, reserved)))),
      ).
        record {
          structure_size = structure_size;
          flags = flags;
          output_buffer_length = output_buffer_length;
          file_id = file_id;
          completion_filter = completion_filter;
          reserved = reserved;
        })
      (λ r. (
        r.structure_size,
        (r.flags, (r.output_buffer_length, (r.file_id, (r.completion_filter, r.reserved)))),
      ))
      (λ r. refl)
      (follow (uint 2) (λ _.
        follow (uint 2)
          (λ _. follow (uint 4) (λ _. follow file_id_layout (λ _. follow (uint 4) (λ _. uint 4))))))

pub record ChangeNotifyResponse : Type 0 where
  pub structure_size : ℕ
  pub output_buffer_offset : ℕ
  pub output_buffer_length : ℕ
  pub buffer : List ℕ

unfoldable pub change_notify_response : Layout ChangeNotifyResponse
change_notify_response =
    fields
      (λ (structure_size, (output_buffer_offset, (output_buffer_length, buffer))). record {
        structure_size = structure_size;
        output_buffer_offset = output_buffer_offset;
        output_buffer_length = output_buffer_length;
        buffer = buffer;
      })
      (λ r. (r.structure_size, (r.output_buffer_offset, (r.output_buffer_length, r.buffer))))
      (λ r. refl)
      (follow (uint 2) (λ _.
        follow (uint 2)
          (λ _. follow (uint 4) (λ output_buffer_length. array output_buffer_length))))
