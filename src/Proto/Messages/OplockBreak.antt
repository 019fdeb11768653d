-- ===== src/Proto/Messages/OplockBreak.antt =====
-- proto/messages/oplock_break.rs
use rust_smb_server.Prelude.{ℕ, refl}
use rust_smb_server.Proto.Layout.{Layout, uint, follow, fields}
use rust_smb_server.Proto.FileId.{FileId, file_id_layout}

pub record OplockBreakNotification : Type 0 where
  pub structure_size : ℕ
  pub oplock_level : ℕ
  pub reserved : ℕ
  pub reserved2 : ℕ
  pub file_id : FileId

unfoldable pub oplock_break_notification : Layout OplockBreakNotification
oplock_break_notification =
    fields
      (λ (structure_size, (oplock_level, (reserved, (reserved2, file_id)))). record {
        structure_size = structure_size;
        oplock_level = oplock_level;
        reserved = reserved;
        reserved2 = reserved2;
        file_id = file_id;
      })
      (λ r. (r.structure_size, (r.oplock_level, (r.reserved, (r.reserved2, r.file_id)))))
      (λ r. refl)
      (follow (uint 2)
        (λ _. follow (uint 1) (λ _. follow (uint 1) (λ _. follow (uint 4) (λ _. file_id_layout)))))
