-- ===== src/Proto/Messages/Ioctl.antt =====
-- proto/messages/ioctl.rs
use rust_smb_server.Prelude.{ℕ, ◌≡◌, refl, List, ◌==◌, if◌then◌else◌, arith}
use rust_smb_server.Proto.Layout.{Layout, uint, array, follow, fields}
use rust_smb_server.Proto.FileId.{FileId, file_id_layout}

pub record IoctlRequest : Type 0 where
  pub structure_size : ℕ
  pub reserved : ℕ
  pub ctl_code : ℕ
  pub file_id : FileId
  pub input_offset : ℕ
  pub input_count : ℕ
  pub max_input_response : ℕ
  pub output_offset : ℕ
  pub output_count : ℕ
  pub max_output_response : ℕ
  pub flags : ℕ
  pub reserved2 : ℕ
  pub input : List ℕ

unfoldable pub ioctl_request : Layout IoctlRequest
ioctl_request =
    fields
      (λ (
        structure_size,
        (
          reserved,
          (
            ctl_code,
            (
              file_id,
              (
                input_offset,
                (
                  input_count,
                  (
                    max_input_response,
                    (
                      output_offset,
                      (output_count, (max_output_response, (flags, (reserved2, input)))),
                    ),
                  ),
                ),
              ),
            ),
          ),
        ),
      ).
        record {
          structure_size = structure_size;
          reserved = reserved;
          ctl_code = ctl_code;
          file_id = file_id;
          input_offset = input_offset;
          input_count = input_count;
          max_input_response = max_input_response;
          output_offset = output_offset;
          output_count = output_count;
          max_output_response = max_output_response;
          flags = flags;
          reserved2 = reserved2;
          input = input;
        })
      (λ r. (
        r.structure_size,
        (
          r.reserved,
          (
            r.ctl_code,
            (
              r.file_id,
              (
                r.input_offset,
                (
                  r.input_count,
                  (
                    r.max_input_response,
                    (
                      r.output_offset,
                      (r.output_count, (r.max_output_response, (r.flags, (r.reserved2, r.input)))),
                    ),
                  ),
                ),
              ),
            ),
          ),
        ),
      ))
      (λ r. refl)
      (follow (uint 2) (λ _. follow (uint 2) (λ _. follow (uint 4) (λ _. follow file_id_layout (λ _.
        follow (uint 4) (λ _. follow (uint 4) (λ input_count. follow (uint 4) (λ _.
          follow (uint 4) (λ _. follow (uint 4) (λ _.
            follow (uint 4)
              (λ _. follow (uint 4) (λ _. follow (uint 4) (λ _. array input_count)))))))))))))

pub record IoctlResponse : Type 0 where
  pub structure_size : ℕ
  pub reserved : ℕ
  pub ctl_code : ℕ
  pub file_id : FileId
  pub input_offset : ℕ
  pub input_count : ℕ
  pub output_offset : ℕ
  pub output_count : ℕ
  pub flags : ℕ
  pub reserved2 : ℕ
  pub output : List ℕ

unfoldable pub ioctl_response : Layout IoctlResponse
ioctl_response =
    fields
      (λ (
        structure_size,
        (
          reserved,
          (
            ctl_code,
            (
              file_id,
              (
                input_offset,
                (input_count, (output_offset, (output_count, (flags, (reserved2, output))))),
              ),
            ),
          ),
        ),
      ).
        record {
          structure_size = structure_size;
          reserved = reserved;
          ctl_code = ctl_code;
          file_id = file_id;
          input_offset = input_offset;
          input_count = input_count;
          output_offset = output_offset;
          output_count = output_count;
          flags = flags;
          reserved2 = reserved2;
          output = output;
        })
      (λ r. (
        r.structure_size,
        (
          r.reserved,
          (
            r.ctl_code,
            (
              r.file_id,
              (
                r.input_offset,
                (
                  r.input_count,
                  (r.output_offset, (r.output_count, (r.flags, (r.reserved2, r.output)))),
                ),
              ),
            ),
          ),
        ),
      ))
      (λ r. refl)
      (follow (uint 2) (λ _. follow (uint 2) (λ _. follow (uint 4) (λ _. follow file_id_layout (λ _.
        follow (uint 4) (λ _. follow (uint 4) (λ _. follow (uint 4) (λ _.
          follow (uint 4) (λ output_count.
            follow (uint 4) (λ _. follow (uint 4) (λ _. array output_count)))))))))))

pub data Fsctl : Type 0 where
  validate_negotiate_info dfs_get_referrals dfs_get_referrals_ex pipe_transcede pipe_peek
        pipe_wait :
      Fsctl
  lmr_request_resiliency query_network_interface_info : Fsctl
  other : ℕ → Fsctl

unfoldable pub fsctl_from_u32 : ℕ → Fsctl
fsctl_from_u32 code =
    if code == 0x0014_0204
    then validate_negotiate_info
    else if code == 0x0006_0194
    then dfs_get_referrals
    else if code == 0x0006_0198
    then dfs_get_referrals_ex
    else if code == 0x0011_c017
    then pipe_transcede
    else if code == 0x0011_400c
    then pipe_peek
    else if code == 0x0011_c018
    then pipe_wait
    else if code == 0x001c_0017
    then lmr_request_resiliency
    else if code == 0x001f_c017
    then query_network_interface_info
    else other code

unfoldable pub fsctl_as_u32 : Fsctl → ℕ
fsctl_as_u32 validate_negotiate_info = 0x0014_0204
fsctl_as_u32 dfs_get_referrals = 0x0006_0194
fsctl_as_u32 dfs_get_referrals_ex = 0x0006_0198
fsctl_as_u32 pipe_transcede = 0x0011_c017
fsctl_as_u32 pipe_peek = 0x0011_400c
fsctl_as_u32 pipe_wait = 0x0011_c018
fsctl_as_u32 lmr_request_resiliency = 0x001c_0017
fsctl_as_u32 query_network_interface_info = 0x001f_c017
fsctl_as_u32 (other code) = code

-- No control code is lost.
pub fsctl_as_u32-fsctl_from_u32 : (code : ℕ) → fsctl_as_u32 (fsctl_from_u32 code) ≡ code
unfolding fsctl_as_u32 fsctl_from_u32
fsctl_as_u32-fsctl_from_u32 code = ground arith
