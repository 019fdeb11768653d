-- ===== src/Proto/Messages/QueryInfo.antt =====
-- proto/messages/query_info.rs
use rust_smb_server.Prelude.{ℕ, refl, List, ◌==◌, if◌then◌else◌, Option, none, some}
use rust_smb_server.Proto.Layout.{Layout, uint, array, follow, fields}
use rust_smb_server.Proto.FileId.{FileId, file_id_layout}

pub record QueryInfoRequest : Type 0 where
  pub structure_size : ℕ
  pub info_type : ℕ
  pub file_information_class : ℕ
  pub output_buffer_length : ℕ
  pub input_buffer_offset : ℕ
  pub reserved : ℕ
  pub input_buffer_length : ℕ
  pub additional_information : ℕ
  pub flags : ℕ
  pub file_id : FileId
  pub input_buffer : List ℕ

unfoldable pub query_info_request : Layout QueryInfoRequest
query_info_request =
    fields
      (λ (
        structure_size,
        (
          info_type,
          (
            file_information_class,
            (
              output_buffer_length,
              (
                input_buffer_offset,
                (
                  reserved,
                  (input_buffer_length, (additional_information, (flags, (file_id, input_buffer)))),
                ),
              ),
            ),
          ),
        ),
      ).
        record {
          structure_size = structure_size;
          info_type = info_type;
          file_information_class = file_information_class;
          output_buffer_length = output_buffer_length;
          input_buffer_offset = input_buffer_offset;
          reserved = reserved;
          input_buffer_length = input_buffer_length;
          additional_information = additional_information;
          flags = flags;
          file_id = file_id;
          input_buffer = input_buffer;
        })
      (λ r. (
        r.structure_size,
        (
          r.info_type,
          (
            r.file_information_class,
            (
              r.output_buffer_length,
              (
                r.input_buffer_offset,
                (
                  r.reserved,
                  (
                    r.input_buffer_length,
                    (r.additional_information, (r.flags, (r.file_id, r.input_buffer))),
                  ),
                ),
              ),
            ),
          ),
        ),
      ))
      (λ r. refl)
      (follow (uint 2) (λ _. follow (uint 1) (λ _. follow (uint 1) (λ _. follow (uint 4) (λ _.
        follow (uint 2) (λ _. follow (uint 2) (λ _. follow (uint 4) (λ input_buffer_length.
          follow (uint 4) (λ _.
            follow (uint 4) (λ _. follow file_id_layout (λ _. array input_buffer_length)))))))))))

pub record QueryInfoResponse : Type 0 where
  pub structure_size : ℕ
  pub output_buffer_offset : ℕ
  pub output_buffer_length : ℕ
  pub buffer : List ℕ

unfoldable pub query_info_response : Layout QueryInfoResponse
query_info_response =
    fields
      (λ (structure_size, (output_buffer_offset, (output_buffer_length, buffer))). record {
        structure_size = structure_size;
        output_buffer_offset = output_buffer_offset;
        output_buffer_length = output_buffer_length;
        buffer = buffer;
      })
      (λ r. (r.structure_size, (r.output_buffer_offset, (r.output_buffer_length, r.buffer))))
      (λ r. refl)
      (follow (uint 2) (λ _.
        follow (uint 2)
          (λ _. follow (uint 4) (λ output_buffer_length. array output_buffer_length))))

pub data InfoType : Type 0 where
  file file_system security quota : InfoType

-- `InfoType::from_u8`
unfoldable pub info_type_from_u8 : ℕ → Option InfoType
info_type_from_u8 v =
    if v == 1
    then some file
    else if v == 2
    then some file_system
    else if v == 3
    then some security
    else if v == 4
    then some quota
    else none
