-- ===== src/Proto/Messages/TreeConnect.antt =====
-- proto/messages/tree_connect.rs
use rust_smb_server.Prelude.{ℕ, refl, List}
use rust_smb_server.Proto.Layout.{Layout, uint, array, follow, fields}

pub record TreeConnectRequest : Type 0 where
  pub structure_size : ℕ
  pub flags : ℕ
  pub path_offset : ℕ
  pub path_length : ℕ
  pub path : List ℕ

unfoldable pub tree_connect_request : Layout TreeConnectRequest
tree_connect_request =
    fields
      (λ (structure_size, (flags, (path_offset, (path_length, path)))). record {
        structure_size = structure_size;
        flags = flags;
        path_offset = path_offset;
        path_length = path_length;
        path = path;
      })
      (λ r. (r.structure_size, (r.flags, (r.path_offset, (r.path_length, r.path))))) (λ r. refl)
      (follow (uint 2) (λ _.
        follow (uint 2)
          (λ _. follow (uint 2) (λ _. follow (uint 2) (λ path_length. array path_length)))))

pub record TreeConnectResponse : Type 0 where
  pub structure_size : ℕ
  pub share_type : ℕ
  pub reserved : ℕ
  pub share_flags : ℕ
  pub capabilities : ℕ
  pub maximal_access : ℕ

unfoldable pub tree_connect_response : Layout TreeConnectResponse
tree_connect_response =
    fields
      (λ (structure_size, (share_type, (reserved, (share_flags, (capabilities, maximal_access))))).
        record {
          structure_size = structure_size;
          share_type = share_type;
          reserved = reserved;
          share_flags = share_flags;
          capabilities = capabilities;
          maximal_access = maximal_access;
        })
      (λ r. (
        r.structure_size,
        (r.share_type, (r.reserved, (r.share_flags, (r.capabilities, r.maximal_access)))),
      ))
      (λ r. refl)
      (follow (uint 2) (λ _.
        follow (uint 1)
          (λ _. follow (uint 1) (λ _. follow (uint 4) (λ _. follow (uint 4) (λ _. uint 4))))))
