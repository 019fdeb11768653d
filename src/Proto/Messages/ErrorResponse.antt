-- ===== src/Proto/Messages/ErrorResponse.antt =====
-- proto/messages/error_response.rs
use rust_smb_server.Prelude.{ℕ, refl, List, [], ◌∷◌}
use rust_smb_server.Proto.Layout.{Layout, uint, array, follow, fields, or_one}

pub record ErrorResponse : Type 0 where
  pub structure_size : ℕ
  pub error_context_count : ℕ
  pub reserved : ℕ
  pub byte_count : ℕ
  pub error_data : List ℕ

unfoldable pub error_response : Layout ErrorResponse
error_response =
    fields
      (λ (structure_size, (error_context_count, (reserved, (byte_count, error_data)))). record {
        structure_size = structure_size;
        error_context_count = error_context_count;
        reserved = reserved;
        byte_count = byte_count;
        error_data = error_data;
      })
      (λ r. (r.structure_size, (r.error_context_count, (r.reserved, (r.byte_count, r.error_data)))))
      (λ r. refl)
      (follow (uint 2) (λ _.
        follow (uint 1)
          (λ _. follow (uint 1) (λ _. follow (uint 4) (λ byte_count. array (or_one byte_count))))))

pub record ErrorContext : Type 0 where
  pub error_data_length : ℕ
  pub error_id : ℕ
  pub error_context_data : List ℕ

unfoldable pub error_context : Layout ErrorContext
error_context =
    fields
      (λ (error_data_length, (error_id, error_context_data)). record {
        error_data_length = error_data_length;
        error_id = error_id;
        error_context_data = error_context_data;
      })
      (λ r. (r.error_data_length, (r.error_id, r.error_context_data))) (λ r. refl)
      (follow (uint 4) (λ error_data_length. follow (uint 4) (λ _. array error_data_length)))

-- `ErrorResponse::status`
abbrev pub error_status : ErrorResponse
error_status = record {
  structure_size = 9;
  error_context_count = 0;
  reserved = 0;
  byte_count = 0;
  error_data = 0 ∷ [];
}
