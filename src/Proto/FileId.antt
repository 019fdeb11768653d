-- ===== src/Proto/FileId.antt =====
-- `FileId` of proto/messages/create.rs.
use rust_smb_server.Prelude.{ℕ, ◌==◌, ◌≡◌, ◌↔◌, refl, Bool, true, ◌&&◌, arith}
use rust_smb_server.Prelude.Assoc.{Eq}
use rust_smb_server.Proto.Layout.{Layout, uint, follow, fields}

pub record FileId : Type 0 where
  pub persistent : ℕ
  pub volatile : ℕ

-- `FileId::any`
abbrev pub any_file_id : FileId
any_file_id = record { persistent = 0xffff_ffff_ffff_ffff; volatile = 0xffff_ffff_ffff_ffff }

abbrev pub file_id_beq : FileId → FileId → Bool
file_id_beq a b = a.persistent == b.persistent && a.volatile == b.volatile

pub file_id_beq_iff : (a b : FileId) → (file_id_beq a b ≡ true) ↔ (a ≡ b)
file_id_beq_iff a b = ground arith

instance abbrev pub file_id_eq : Eq FileId
file_id_eq = record { beq = file_id_beq; beq_iff = file_id_beq_iff }

-- Its place in a message.
unfoldable pub file_id_layout : Layout FileId
file_id_layout =
    fields (λ (p, v). record { persistent = p; volatile = v }) (λ r. (r.persistent, r.volatile))
      (λ r. refl) (follow (uint 8) λ _. uint 8)
