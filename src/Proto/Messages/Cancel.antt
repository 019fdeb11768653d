-- ===== src/Proto/Messages/Cancel.antt =====
-- proto/messages/cancel.rs
use rust_smb_server.Prelude.{ℕ, refl}
use rust_smb_server.Proto.Layout.{Layout, uint, follow, fields}

pub record CancelRequest : Type 0 where
  pub structure_size : ℕ
  pub reserved : ℕ

unfoldable pub cancel_request : Layout CancelRequest
cancel_request =
    fields
      (λ (structure_size, reserved). record {
        structure_size = structure_size;
        reserved = reserved;
      })
      (λ r. (r.structure_size, r.reserved)) (λ r. refl) (follow (uint 2) (λ _. uint 2))

-- `CancelRequest::default`
abbrev pub default_cancel_request : CancelRequest
default_cancel_request = record { structure_size = 4; reserved = 0 }
