-- ===== src/Proto/Messages/SessionSetup.antt =====
-- proto/messages/session_setup.rs
use rust_smb_server.Prelude.{ℕ, refl, List}
use rust_smb_server.Proto.Layout.{Layout, uint, array, follow, fields}

pub record SessionSetupRequest : Type 0 where
  pub structure_size : ℕ
  pub flags : ℕ
  pub security_mode : ℕ
  pub capabilities : ℕ
  pub channel : ℕ
  pub security_buffer_offset : ℕ
  pub security_buffer_length : ℕ
  pub previous_session_id : ℕ
  pub security_buffer : List ℕ

unfoldable pub session_setup_request : Layout SessionSetupRequest
session_setup_request =
    fields
      (λ (
        structure_size,
        (
          flags,
          (
            security_mode,
            (
              capabilities,
              (
                channel,
                (
                  security_buffer_offset,
                  (security_buffer_length, (previous_session_id, security_buffer)),
                ),
              ),
            ),
          ),
        ),
      ).
        record {
          structure_size = structure_size;
          flags = flags;
          security_mode = security_mode;
          capabilities = capabilities;
          channel = channel;
          security_buffer_offset = security_buffer_offset;
          security_buffer_length = security_buffer_length;
          previous_session_id = previous_session_id;
          security_buffer = security_buffer;
        })
      (λ r. (
        r.structure_size,
        (
          r.flags,
          (
            r.security_mode,
            (
              r.capabilities,
              (
                r.channel,
                (
                  r.security_buffer_offset,
                  (r.security_buffer_length, (r.previous_session_id, r.security_buffer)),
                ),
              ),
            ),
          ),
        ),
      ))
      (λ r. refl)
      (follow (uint 2) (λ _. follow (uint 1) (λ _. follow (uint 1) (λ _. follow (uint 4) (λ _.
        follow (uint 4) (λ _. follow (uint 2) (λ _.
          follow (uint 2)
            (λ security_buffer_length. follow (uint 8) (λ _. array security_buffer_length)))))))))

pub record SessionSetupResponse : Type 0 where
  pub structure_size : ℕ
  pub session_flags : ℕ
  pub security_buffer_offset : ℕ
  pub security_buffer_length : ℕ
  pub security_buffer : List ℕ

unfoldable pub session_setup_response : Layout SessionSetupResponse
session_setup_response =
    fields
      (λ (
        structure_size,
        (session_flags, (security_buffer_offset, (security_buffer_length, security_buffer))),
      ).
        record {
          structure_size = structure_size;
          session_flags = session_flags;
          security_buffer_offset = security_buffer_offset;
          security_buffer_length = security_buffer_length;
          security_buffer = security_buffer;
        })
      (λ r. (
        r.structure_size,
        (
          r.session_flags,
          (r.security_buffer_offset, (r.security_buffer_length, r.security_buffer)),
        ),
      ))
      (λ r. refl)
      (follow (uint 2) (λ _. follow (uint 2) (λ _.
        follow (uint 2)
          (λ _. follow (uint 2) (λ security_buffer_length. array security_buffer_length)))))
