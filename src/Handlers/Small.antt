-- ===== src/Handlers/Small.antt =====
-- handlers/echo.rs, lock.rs, change_notify.rs, oplock_break.rs and ioctl.rs: the handlers that keep no
-- state.
use rust_smb_server.Prelude.{ℕ, ◌≡◌, refl, Option, List, ◌∷◌, ◌++◌}
use rust_smb_server.Prelude.Bytes.{le_bytes}
use rust_smb_server.Ntstatus
use rust_smb_server.Proto.Error
use rust_smb_server.Proto.Error.{ProtoResult}
use rust_smb_server.Proto.Wire.{Binrw}
use rust_smb_server.Proto.Layout.{write, parse}
use rust_smb_server.Proto.Dialect.{Dialect}
use rust_smb_server.Proto.FileId.{any_file_id}
use rust_smb_server.Proto.Messages.Echo.{echo_response, default_echo_response}
use rust_smb_server.Proto.Messages.Lock.{lock_response, default_lock_response}
use rust_smb_server.Proto.Messages.ErrorResponse.{error_response, error_status}
use rust_smb_server.Proto.Messages.Ioctl.{
  IoctlRequest, ioctl_request, ioctl_response, Fsctl, fsctl_from_u32, validate_negotiate_info,
  dfs_get_referrals, dfs_get_referrals_ex,
}
use rust_smb_server.Dispatch.{HandlerResponse, response_ok, response_err, error_body}
use rust_smb_server.Handlers.Replies.{ioctl_reply, negotiate_info}

unfoldable pub change_notify_handle : HandlerResponse
change_notify_handle = response_err Ntstatus.not_supported

unfoldable pub oplock_break_handle : HandlerResponse
oplock_break_handle = response_ok (
    le_bytes 2 24
    ++ (0
        ∷ 0
        ∷ (le_bytes 4 0 ++ (le_bytes 8 any_file_id.persistent ++ le_bytes 8 any_file_id.volatile))))

module _ ⦃b : Binrw⦄ where
  unfoldable pub echo_handle : HandlerResponse
  echo_handle = response_ok (write echo_response default_echo_response)

  unfoldable pub lock_handle : HandlerResponse
  lock_handle = response_ok (write lock_response default_lock_response)

  -- `match req.fsctl()`, for the server and the dialect of the connection.
  unfoldable pub ioctl_for : List ℕ → Option Dialect → IoctlRequest → Fsctl → HandlerResponse
  ioctl_for server_guid dialect req validate_negotiate_info =
      response_ok (write ioctl_response (ioctl_reply req (negotiate_info server_guid dialect)))
  ioctl_for server_guid dialect req dfs_get_referrals = response_err Ntstatus.fs_driver_required
  ioctl_for server_guid dialect req dfs_get_referrals_ex = response_err Ntstatus.fs_driver_required
  ioctl_for server_guid dialect req _ = response_err Ntstatus.not_supported

  abbrev pub ioctl_parsed : List ℕ → Option Dialect → ProtoResult IoctlRequest → HandlerResponse
  ioctl_parsed server_guid dialect (Error.err e) = response_err Ntstatus.invalid_parameter
  ioctl_parsed server_guid dialect (Error.ok req) =
      ioctl_for server_guid dialect req (fsctl_from_u32 req.ctl_code)

  unfoldable pub ioctl_handle : List ℕ → Option Dialect → List ℕ → HandlerResponse
  ioctl_handle server_guid dialect body =
      ioctl_parsed server_guid dialect (parse ioctl_request body)

  -- The body of an error is that of the wire struct.
  pub error_body-write : error_body ≡ write error_response error_status
  unfolding error_body error_response le_bytes
  error_body-write = simp (b.write_little) refl
