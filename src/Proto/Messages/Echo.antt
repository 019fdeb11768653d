-- ===== src/Proto/Messages/Echo.antt =====
-- proto/messages/echo.rs
use rust_smb_server.Prelude.{ℕ, refl}
use rust_smb_server.Proto.Layout.{Layout, uint, follow, fields}

pub record EchoRequest : Type 0 where
  pub structure_size : ℕ
  pub reserved : ℕ

unfoldable pub echo_request : Layout EchoRequest
echo_request =
    fields
      (λ (structure_size, reserved). record {
        structure_size = structure_size;
        reserved = reserved;
      })
      (λ r. (r.structure_size, r.reserved)) (λ r. refl) (follow (uint 2) (λ _. uint 2))

pub record EchoResponse : Type 0 where
  pub structure_size : ℕ
  pub reserved : ℕ

unfoldable pub echo_response : Layout EchoResponse
echo_response =
    fields
      (λ (structure_size, reserved). record {
        structure_size = structure_size;
        reserved = reserved;
      })
      (λ r. (r.structure_size, r.reserved)) (λ r. refl) (follow (uint 2) (λ _. uint 2))

-- `EchoRequest::default`
abbrev pub default_echo_request : EchoRequest
default_echo_request = record { structure_size = 4; reserved = 0 }

-- `EchoResponse::default`
abbrev pub default_echo_response : EchoResponse
default_echo_response = record { structure_size = 4; reserved = 0 }
