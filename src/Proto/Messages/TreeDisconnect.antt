-- ===== src/Proto/Messages/TreeDisconnect.antt =====
-- proto/messages/tree_disconnect.rs
use rust_smb_server.Prelude.{ℕ, refl}
use rust_smb_server.Proto.Layout.{Layout, uint, follow, fields}

pub record TreeDisconnectRequest : Type 0 where
  pub structure_size : ℕ
  pub reserved : ℕ

unfoldable pub tree_disconnect_request : Layout TreeDisconnectRequest
tree_disconnect_request =
    fields
      (λ (structure_size, reserved). record {
        structure_size = structure_size;
        reserved = reserved;
      })
      (λ r. (r.structure_size, r.reserved)) (λ r. refl) (follow (uint 2) (λ _. uint 2))

pub record TreeDisconnectResponse : Type 0 where
  pub structure_size : ℕ
  pub reserved : ℕ

unfoldable pub tree_disconnect_response : Layout TreeDisconnectResponse
tree_disconnect_response =
    fields
      (λ (structure_size, reserved). record {
        structure_size = structure_size;
        reserved = reserved;
      })
      (λ r. (r.structure_size, r.reserved)) (λ r. refl) (follow (uint 2) (λ _. uint 2))

-- `TreeDisconnectRequest::default`
abbrev pub default_tree_disconnect_request : TreeDisconnectRequest
default_tree_disconnect_request = record { structure_size = 4; reserved = 0 }

-- `TreeDisconnectResponse::default`
abbrev pub default_tree_disconnect_response : TreeDisconnectResponse
default_tree_disconnect_response = record { structure_size = 4; reserved = 0 }
