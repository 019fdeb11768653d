-- ===== src/Proto/Messages/QueryDirectory.antt =====
-- proto/messages/query_directory.rs
use rust_smb_server.Prelude.{ℕ, refl, List, ◌==◌, if◌then◌else◌, Option, none, some}
use rust_smb_server.Proto.Layout.{Layout, uint, array, follow, fields}
use rust_smb_server.Proto.FileId.{FileId, file_id_layout}

pub record QueryDirectoryRequest : Type 0 where
  pub structure_size : ℕ
  pub file_information_class : ℕ
  pub flags : ℕ
  pub file_index : ℕ
  pub file_id : FileId
  pub file_name_offset : ℕ
  pub file_name_length : ℕ
  pub output_buffer_length : ℕ
  pub file_name : List ℕ

unfoldable pub query_directory_request : Layout QueryDirectoryRequest
query_directory_request =
    fields
      (λ (
        structure_size,
        (
          file_information_class,
          (
            flags,
            (
              file_index,
              (file_id, (file_name_offset, (file_name_length, (output_buffer_length, file_name)))),
            ),
          ),
        ),
      ).
        record {
          structure_size = structure_size;
          file_information_class = file_information_class;
          flags = flags;
          file_index = file_index;
          file_id = file_id;
          file_name_offset = file_name_offset;
          file_name_length = file_name_length;
          output_buffer_length = output_buffer_length;
          file_name = file_name;
        })
      (λ r. (
        r.structure_size,
        (
          r.file_information_class,
          (
            r.flags,
            (
              r.file_index,
              (
                r.file_id,
                (r.file_name_offset, (r.file_name_length, (r.output_buffer_length, r.file_name))),
              ),
            ),
          ),
        ),
      ))
      (λ r. refl)
      (follow (uint 2) (λ _. follow (uint 1) (λ _. follow (uint 1) (λ _. follow (uint 4) (λ _.
        follow file_id_layout (λ _. follow (uint 2) (λ _.
          follow (uint 2) (λ file_name_length. follow (uint 4) (λ _. array file_name_length)))))))))

pub record QueryDirectoryResponse : Type 0 where
  pub structure_size : ℕ
  pub output_buffer_offset : ℕ
  pub output_buffer_length : ℕ
  pub buffer : List ℕ

unfoldable pub query_directory_response : Layout QueryDirectoryResponse
query_directory_response =
    fields
      (λ (structure_size, (output_buffer_offset, (output_buffer_length, buffer))). record {
        structure_size = structure_size;
        output_buffer_offset = output_buffer_offset;
        output_buffer_length = output_buffer_length;
        buffer = buffer;
      })
      (λ r. (r.structure_size, (r.output_buffer_offset, (r.output_buffer_length, r.buffer))))
      (λ r. refl)
      (follow (uint 2) (λ _.
        follow (uint 2)
          (λ _. follow (uint 4) (λ output_buffer_length. array output_buffer_length))))

pub data FileInfoClass : Type 0 where
  file_directory_information file_full_directory_information file_both_directory_information :
      FileInfoClass
  file_names_information file_id_both_directory_information file_id_full_directory_information :
      FileInfoClass

-- `FileInfoClass::from_u8`
unfoldable pub file_info_class_from_u8 : ℕ → Option FileInfoClass
file_info_class_from_u8 v =
    if v == 0x01
    then some file_directory_information
    else if v == 0x02
    then some file_full_directory_information
    else if v == 0x03
    then some file_both_directory_information
    else if v == 0x0c
    then some file_names_information
    else if v == 0x25
    then some file_id_both_directory_information
    else if v == 0x26
    then some file_id_full_directory_information
    else none
