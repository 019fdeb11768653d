-- ===== src/Proto/Messages/Lock.antt =====
-- proto/messages/lock.rs
use rust_smb_server.Prelude.{ℕ, refl, List, length}
use rust_smb_server.Proto.Layout.{Layout, uint, many, follow, fields}
use rust_smb_server.Proto.FileId.{FileId, file_id_layout}

pub record LockElement : Type 0 where
  pub offset : ℕ
  pub length : ℕ
  pub flags : ℕ
  pub reserved : ℕ

unfoldable pub lock_element : Layout LockElement
lock_element =
    fields
      (λ (offset, (length, (flags, reserved))). record {
        offset = offset;
        length = length;
        flags = flags;
        reserved = reserved;
      })
      (λ r. (r.offset, (r.length, (r.flags, r.reserved)))) (λ r. refl)
      (follow (uint 8) (λ _. follow (uint 8) (λ _. follow (uint 4) (λ _. uint 4))))

pub record LockRequest : Type 0 where
  pub structure_size : ℕ
  pub lock_count : ℕ
  pub lock_sequence : ℕ
  pub file_id : FileId
  pub locks : List LockElement

unfoldable pub lock_request : Layout LockRequest
lock_request =
    fields
      (λ (structure_size, (lock_count, (lock_sequence, (file_id, locks)))). record {
        structure_size = structure_size;
        lock_count = lock_count;
        lock_sequence = lock_sequence;
        file_id = file_id;
        locks = locks;
      })
      (λ r. (r.structure_size, (r.lock_count, (r.lock_sequence, (r.file_id, r.locks))))) (λ r. refl)
      (follow (uint 2) (λ _. follow (uint 2) (λ lock_count.
        follow (uint 4) (λ _. follow file_id_layout (λ _. many lock_count lock_element)))))

pub record LockResponse : Type 0 where
  pub structure_size : ℕ
  pub reserved : ℕ

unfoldable pub lock_response : Layout LockResponse
lock_response =
    fields
      (λ (structure_size, reserved). record {
        structure_size = structure_size;
        reserved = reserved;
      })
      (λ r. (r.structure_size, r.reserved)) (λ r. refl) (follow (uint 2) (λ _. uint 2))

-- `LockResponse::default`
abbrev pub default_lock_response : LockResponse
default_lock_response = record { structure_size = 4; reserved = 0 }
