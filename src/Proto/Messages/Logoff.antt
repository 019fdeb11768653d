-- ===== src/Proto/Messages/Logoff.antt =====
-- proto/messages/logoff.rs
use rust_smb_server.Prelude.{ℕ, refl}
use rust_smb_server.Proto.Layout.{Layout, uint, follow, fields}

pub record LogoffRequest : Type 0 where
  pub structure_size : ℕ
  pub reserved : ℕ

unfoldable pub logoff_request : Layout LogoffRequest
logoff_request =
    fields
      (λ (structure_size, reserved). record {
        structure_size = structure_size;
        reserved = reserved;
      })
      (λ r. (r.structure_size, r.reserved)) (λ r. refl) (follow (uint 2) (λ _. uint 2))

pub record LogoffResponse : Type 0 where
  pub structure_size : ℕ
  pub reserved : ℕ

unfoldable pub logoff_response : Layout LogoffResponse
logoff_response =
    fields
      (λ (structure_size, reserved). record {
        structure_size = structure_size;
        reserved = reserved;
      })
      (λ r. (r.structure_size, r.reserved)) (λ r. refl) (follow (uint 2) (λ _. uint 2))

-- `LogoffRequest::default`
abbrev pub default_logoff_request : LogoffRequest
default_logoff_request = record { structure_size = 4; reserved = 0 }

-- `LogoffResponse::default`
abbrev pub default_logoff_response : LogoffResponse
default_logoff_response = record { structure_size = 4; reserved = 0 }
