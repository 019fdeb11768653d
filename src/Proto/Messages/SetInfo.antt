-- ===== src/Proto/Messages/SetInfo.antt =====
-- proto/messages/set_info.rs
use rust_smb_server.Prelude.{ℕ, refl, List}
use rust_smb_server.Proto.Layout.{Layout, uint, array, follow, fields}
use rust_smb_server.Proto.FileId.{FileId, file_id_layout}

pub record SetInfoRequest : Type 0 where
  pub structure_size : ℕ
  pub info_type : ℕ
  pub file_information_class : ℕ
  pub buffer_length : ℕ
  pub buffer_offset : ℕ
  pub reserved : ℕ
  pub additional_information : ℕ
  pub file_id : FileId
  pub buffer : List ℕ

unfoldable pub set_info_request : Layout SetInfoRequest
set_info_request =
    fields
      (λ (
        structure_size,
        (
          info_type,
          (
            file_information_class,
            (
              buffer_length,
              (buffer_offset, (reserved, (additional_information, (file_id, buffer)))),
            ),
          ),
        ),
      ).
        record {
          structure_size = structure_size;
          info_type = info_type;
          file_information_class = file_information_class;
          buffer_length = buffer_length;
          buffer_offset = buffer_offset;
          reserved = reserved;
          additional_information = additional_information;
          file_id = file_id;
          buffer = buffer;
        })
      (λ r. (
        r.structure_size,
        (
          r.info_type,
          (
            r.file_information_class,
            (
              r.buffer_length,
              (r.buffer_offset, (r.reserved, (r.additional_information, (r.file_id, r.buffer)))),
            ),
          ),
        ),
      ))
      (λ r. refl)
      (follow (uint 2) (λ _. follow (uint 1) (λ _. follow (uint 1) (λ _.
        follow (uint 4) (λ buffer_length. follow (uint 2) (λ _.
          follow (uint 2)
            (λ _. follow (uint 4) (λ _. follow file_id_layout (λ _. array buffer_length)))))))))

pub record SetInfoResponse : Type 0 where
  pub structure_size : ℕ

unfoldable pub set_info_response : Layout SetInfoResponse
set_info_response =
    fields (λ (structure_size : ℕ). record { structure_size = structure_size })
      (λ r. r.structure_size) (λ r. refl) (uint 2)

-- `SetInfoResponse::default`
abbrev pub default_set_info_response : SetInfoResponse
default_set_info_response = record { structure_size = 2 }
