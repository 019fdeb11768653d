-- ===== src/Proto/Messages/Close.antt =====
-- proto/messages/close.rs
use rust_smb_server.Prelude.{ℕ, refl}
use rust_smb_server.Proto.Layout.{Layout, uint, follow, fields}
use rust_smb_server.Proto.FileId.{FileId, file_id_layout}

pub record CloseRequest : Type 0 where
  pub structure_size : ℕ
  pub flags : ℕ
  pub reserved : ℕ
  pub file_id : FileId

unfoldable pub close_request : Layout CloseRequest
close_request =
    fields
      (λ (structure_size, (flags, (reserved, file_id))). record {
        structure_size = structure_size;
        flags = flags;
        reserved = reserved;
        file_id = file_id;
      })
      (λ r. (r.structure_size, (r.flags, (r.reserved, r.file_id)))) (λ r. refl)
      (follow (uint 2) (λ _. follow (uint 2) (λ _. follow (uint 4) (λ _. file_id_layout))))

pub record CloseResponse : Type 0 where
  pub structure_size : ℕ
  pub flags : ℕ
  pub reserved : ℕ
  pub creation_time : ℕ
  pub last_access_time : ℕ
  pub last_write_time : ℕ
  pub change_time : ℕ
  pub allocation_size : ℕ
  pub end_of_file : ℕ
  pub file_attributes : ℕ

unfoldable pub close_response : Layout CloseResponse
close_response =
    fields
      (λ (
        structure_size,
        (
          flags,
          (
            reserved,
            (
              creation_time,
              (
                last_access_time,
                (last_write_time, (change_time, (allocation_size, (end_of_file, file_attributes)))),
              ),
            ),
          ),
        ),
      ).
        record {
          structure_size = structure_size;
          flags = flags;
          reserved = reserved;
          creation_time = creation_time;
          last_access_time = last_access_time;
          last_write_time = last_write_time;
          change_time = change_time;
          allocation_size = allocation_size;
          end_of_file = end_of_file;
          file_attributes = file_attributes;
        })
      (λ r. (
        r.structure_size,
        (
          r.flags,
          (
            r.reserved,
            (
              r.creation_time,
              (
                r.last_access_time,
                (
                  r.last_write_time,
                  (r.change_time, (r.allocation_size, (r.end_of_file, r.file_attributes))),
                ),
              ),
            ),
          ),
        ),
      ))
      (λ r. refl)
      (follow (uint 2) (λ _. follow (uint 2) (λ _. follow (uint 4) (λ _. follow (uint 8) (λ _.
        follow (uint 8) (λ _.
          follow (uint 8)
            (λ _. follow (uint 8) (λ _. follow (uint 8) (λ _. follow (uint 8) (λ _. uint 4))))))))))

-- `CloseResponse::new`: the other fields are those of `Default`.
abbrev pub new_close_response : CloseResponse
new_close_response = record {
  structure_size = 60;
  flags = 0;
  reserved = 0;
  creation_time = 0;
  last_access_time = 0;
  last_write_time = 0;
  change_time = 0;
  allocation_size = 0;
  end_of_file = 0;
  file_attributes = 0;
}
