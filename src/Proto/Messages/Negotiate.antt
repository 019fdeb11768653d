-- ===== src/Proto/Messages/Negotiate.antt =====
-- proto/messages/negotiate.rs
pub mod Contexts
use rust_smb_server.Prelude.{
  ℕ, ◌≡◌, refl, List, ◌==◌, if◌then◌else◌, ◌++◌, [], ◌∷◌, Option, none, some, arith, length,
}
use rust_smb_server.Proto.Layout.{Layout, uint, array, many, follow, fields, or_one}
use rust_smb_server.Proto.FileId.{FileId, file_id_layout}

pub record NegotiateRequest : Type 0 where
  pub structure_size : ℕ
  pub dialect_count : ℕ
  pub security_mode : ℕ
  pub reserved : ℕ
  pub capabilities : ℕ
  pub client_guid : List ℕ
  pub negotiate_context_offset_or_client_start_time : ℕ
  pub dialects : List ℕ

unfoldable pub negotiate_request : Layout NegotiateRequest
negotiate_request =
    fields
      (λ (
        structure_size,
        (
          dialect_count,
          (
            security_mode,
            (
              reserved,
              (
                capabilities,
                (client_guid, (negotiate_context_offset_or_client_start_time, dialects)),
              ),
            ),
          ),
        ),
      ).
        record {
          structure_size = structure_size;
          dialect_count = dialect_count;
          security_mode = security_mode;
          reserved = reserved;
          capabilities = capabilities;
          client_guid = client_guid;
          negotiate_context_offset_or_client_start_time =
              negotiate_context_offset_or_client_start_time;
          dialects = dialects;
        })
      (λ r. (
        r.structure_size,
        (
          r.dialect_count,
          (
            r.security_mode,
            (
              r.reserved,
              (
                r.capabilities,
                (r.client_guid, (r.negotiate_context_offset_or_client_start_time, r.dialects)),
              ),
            ),
          ),
        ),
      ))
      (λ r. refl)
      (follow (uint 2) (λ _. follow (uint 2) (λ dialect_count. follow (uint 2) (λ _.
        follow (uint 2) (λ _.
          follow (uint 4)
            (λ _. follow (array 16) (λ _. follow (uint 8) (λ _. many dialect_count (uint 2)))))))))

pub record NegotiateResponse : Type 0 where
  pub structure_size : ℕ
  pub security_mode : ℕ
  pub dialect_revision : ℕ
  pub negotiate_context_count_or_reserved : ℕ
  pub server_guid : List ℕ
  pub capabilities : ℕ
  pub max_transact_size : ℕ
  pub max_read_size : ℕ
  pub max_write_size : ℕ
  pub system_time : ℕ
  pub server_start_time : ℕ
  pub security_buffer_offset : ℕ
  pub security_buffer_length : ℕ
  pub negotiate_context_offset_or_reserved2 : ℕ
  pub security_buffer : List ℕ

unfoldable pub negotiate_response : Layout NegotiateResponse
negotiate_response =
    fields
      (λ (
        structure_size,
        (
          security_mode,
          (
            dialect_revision,
            (
              negotiate_context_count_or_reserved,
              (
                server_guid,
                (
                  capabilities,
                  (
                    max_transact_size,
                    (
                      max_read_size,
                      (
                        max_write_size,
                        (
                          system_time,
                          (
                            server_start_time,
                            (
                              security_buffer_offset,
                              (
                                security_buffer_length,
                                (negotiate_context_offset_or_reserved2, security_buffer),
                              ),
                            ),
                          ),
                        ),
                      ),
                    ),
                  ),
                ),
              ),
            ),
          ),
        ),
      ).
        record {
          structure_size = structure_size;
          security_mode = security_mode;
          dialect_revision = dialect_revision;
          negotiate_context_count_or_reserved = negotiate_context_count_or_reserved;
          server_guid = server_guid;
          capabilities = capabilities;
          max_transact_size = max_transact_size;
          max_read_size = max_read_size;
          max_write_size = max_write_size;
          system_time = system_time;
          server_start_time = server_start_time;
          security_buffer_offset = security_buffer_offset;
          security_buffer_length = security_buffer_length;
          negotiate_context_offset_or_reserved2 = negotiate_context_offset_or_reserved2;
          security_buffer = security_buffer;
        })
      (λ r. (
        r.structure_size,
        (
          r.security_mode,
          (
            r.dialect_revision,
            (
              r.negotiate_context_count_or_reserved,
              (
                r.server_guid,
                (
                  r.capabilities,
                  (
                    r.max_transact_size,
                    (
                      r.max_read_size,
                      (
                        r.max_write_size,
                        (
                          r.system_time,
                          (
                            r.server_start_time,
                            (
                              r.security_buffer_offset,
                              (
                                r.security_buffer_length,
                                (r.negotiate_context_offset_or_reserved2, r.security_buffer),
                              ),
                            ),
                          ),
                        ),
                      ),
                    ),
                  ),
                ),
              ),
            ),
          ),
        ),
      ))
      (λ r. refl)
      (follow (uint 2) (λ _. follow (uint 2) (λ _. follow (uint 2) (λ _. follow (uint 2) (λ _.
        follow (array 16) (λ _. follow (uint 4) (λ _. follow (uint 4) (λ _. follow (uint 4) (λ _.
          follow (uint 4) (λ _. follow (uint 8) (λ _. follow (uint 8) (λ _. follow (uint 2) (λ _.
            follow (uint 2) (λ security_buffer_length.
              follow (uint 4) (λ _. array security_buffer_length)))))))))))))))

pub record NegotiateContext : Type 0 where
  pub context_type : ℕ
  pub data_length : ℕ
  pub reserved : ℕ
  pub data_bytes : List ℕ

unfoldable pub negotiate_context : Layout NegotiateContext
negotiate_context =
    fields
      (λ (context_type, (data_length, (reserved, data_bytes))). record {
        context_type = context_type;
        data_length = data_length;
        reserved = reserved;
        data_bytes = data_bytes;
      })
      (λ r. (r.context_type, (r.data_length, (r.reserved, r.data_bytes)))) (λ r. refl)
      (follow (uint 2)
        (λ _. follow (uint 2) (λ data_length. follow (uint 4) (λ _. array data_length))))

pub record PreauthIntegrityCapabilities : Type 0 where
  pub hash_algorithm_count : ℕ
  pub salt_length : ℕ
  pub hash_algorithms : List ℕ
  pub salt : List ℕ

unfoldable pub preauth_integrity_capabilities : Layout PreauthIntegrityCapabilities
preauth_integrity_capabilities =
    fields
      (λ (hash_algorithm_count, (salt_length, (hash_algorithms, salt))). record {
        hash_algorithm_count = hash_algorithm_count;
        salt_length = salt_length;
        hash_algorithms = hash_algorithms;
        salt = salt;
      })
      (λ r. (r.hash_algorithm_count, (r.salt_length, (r.hash_algorithms, r.salt)))) (λ r. refl)
      (follow (uint 2) (λ hash_algorithm_count.
        follow (uint 2)
          (λ salt_length. follow (many hash_algorithm_count (uint 2)) (λ _. array salt_length))))

pub record EncryptionCapabilities : Type 0 where
  pub cipher_count : ℕ
  pub ciphers : List ℕ

unfoldable pub encryption_capabilities : Layout EncryptionCapabilities
encryption_capabilities =
    fields (λ (cipher_count, ciphers). record { cipher_count = cipher_count; ciphers = ciphers })
      (λ r. (r.cipher_count, r.ciphers)) (λ r. refl)
      (follow (uint 2) (λ cipher_count. many cipher_count (uint 2)))

pub record SigningCapabilities : Type 0 where
  pub signing_algorithm_count : ℕ
  pub signing_algorithms : List ℕ

unfoldable pub signing_capabilities : Layout SigningCapabilities
signing_capabilities =
    fields
      (λ (signing_algorithm_count, signing_algorithms). record {
        signing_algorithm_count = signing_algorithm_count;
        signing_algorithms = signing_algorithms;
      })
      (λ r. (r.signing_algorithm_count, r.signing_algorithms)) (λ r. refl)
      (follow (uint 2) (λ signing_algorithm_count. many signing_algorithm_count (uint 2)))

-- `NegotiateContext::TYPE_*`
abbrev pub type_preauth_integrity : ℕ
type_preauth_integrity = 1

abbrev pub type_signing : ℕ
type_signing = 8

abbrev pub hash_sha512 : ℕ
hash_sha512 = 1

abbrev pub algorithm_aes_cmac : ℕ
algorithm_aes_cmac = 1
