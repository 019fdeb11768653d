-- ===== src/Proto/Messages/Flush.antt =====
-- proto/messages/flush.rs
use rust_smb_server.Prelude.{ℕ, refl}
use rust_smb_server.Proto.Layout.{Layout, uint, follow, fields}

pub record FlushRequest : Type 0 where
  pub structure_size : ℕ
  pub reserved1 : ℕ
  pub reserved2 : ℕ
  pub file_id_persistent : ℕ
  pub file_id_volatile : ℕ

unfoldable pub flush_request : Layout FlushRequest
flush_request =
    fields
      (λ (structure_size, (reserved1, (reserved2, (file_id_persistent, file_id_volatile)))).
        record {
          structure_size = structure_size;
          reserved1 = reserved1;
          reserved2 = reserved2;
          file_id_persistent = file_id_persistent;
          file_id_volatile = file_id_volatile;
        })
      (λ r. (
        r.structure_size,
        (r.reserved1, (r.reserved2, (r.file_id_persistent, r.file_id_volatile))),
      ))
      (λ r. refl)
      (follow (uint 2)
        (λ _. follow (uint 2) (λ _. follow (uint 4) (λ _. follow (uint 8) (λ _. uint 8)))))

pub record FlushResponse : Type 0 where
  pub structure_size : ℕ
  pub reserved : ℕ

unfoldable pub flush_response : Layout FlushResponse
flush_response =
    fields
      (λ (structure_size, reserved). record {
        structure_size = structure_size;
        reserved = reserved;
      })
      (λ r. (r.structure_size, r.reserved)) (λ r. refl) (follow (uint 2) (λ _. uint 2))

-- `FlushResponse::default`
abbrev pub default_flush_response : FlushResponse
default_flush_response = record { structure_size = 4; reserved = 0 }

-- `FlushRequest::new`
abbrev pub new_flush_request : ℕ → ℕ → FlushRequest
new_flush_request persistent volatile = record {
  structure_size = 24;
  reserved1 = 0;
  reserved2 = 0;
  file_id_persistent = persistent;
  file_id_volatile = volatile;
}
