-- ===== src/Dispatch.antt =====
-- dispatch.rs: what stands between a frame and the handlers. The checks on the request's signature,
-- and the bytes of a response.
pub mod Flags
pub mod Signing
pub mod Compound
pub mod One
pub mod Smb1
use rust_smb_server.Prelude.{
  ℕ, ◌+◌, ◌-◌, ◌^◌, ◌≤◌, ◌==◌, ltb, leb, if◌then◌else◌, ◌&&◌, ◌||◌, not, list_eq, Bool, true, false,
  Option, none, some, List, [], ◌∷◌, ◌++◌, length, replicate, bit_and, bit_or, get_or,
}
use rust_smb_server.Prelude.Assoc.{lookup}
use rust_smb_server.Prelude.Bytes.{le_bytes}
use rust_smb_server.Backend.{Storage}
use rust_smb_server.Access.{is_anonymous}
use rust_smb_server.Ntstatus
use rust_smb_server.Proto.Error
use rust_smb_server.Proto.Error.{ProtoResult}
use rust_smb_server.Proto.Wire.{Binrw}
use rust_smb_server.Proto.Header.{
  Smb2Header, sync, tree_id, write, flags_server_to_redir, flags_async_command, flags_signed,
}
use rust_smb_server.Proto.Header.Opcode.{Command, negotiate, session_setup}
use rust_smb_server.Proto.Dialect.{SigningAlgo}
use rust_smb_server.Proto.Sign.{Macs, sign, verify}
use rust_smb_server.Conn.State.{Session, Connection, nat_eq}
use rust_smb_server.Handlers.{HandlerResult, ok, err}

pub record HandlerResponse : Type 0 where
  pub body : List ℕ
  pub status : ℕ
  pub override_tree_id : Option ℕ
  pub override_session_id : Option ℕ
  pub skip_signing : Bool
  pub take_preauth_snapshot_for_session : Option ℕ

-- `HandlerResponse::ok`
unfoldable pub response_ok : List ℕ → HandlerResponse
response_ok body = record {
  body = body;
  status = Ntstatus.success;
  override_tree_id = none;
  override_session_id = none;
  skip_signing = false;
  take_preauth_snapshot_for_session = none;
}

-- `ErrorResponse::status` of proto/messages/error_response.rs, as it is written: the fixed fields, and
-- one byte of data.
unfoldable pub error_body : List ℕ
error_body = le_bytes 2 9 ++ (0 ∷ 0 ∷ (le_bytes 4 0 ++ 0 ∷ []))

-- `HandlerResponse::err`
unfoldable pub response_err : ℕ → HandlerResponse
response_err status = record {
  body = error_body;
  status = status;
  override_tree_id = none;
  override_session_id = none;
  skip_signing = false;
  take_preauth_snapshot_for_session = none;
}

-- `x & !flag` on u32.
abbrev pub clear : ℕ → ℕ → ℕ
clear flag x = bit_and x (2 ^ 32 - 1 - flag)

abbrev pub has_flag : ℕ → ℕ → Bool
has_flag flag x = not (bit_and x flag == 0)

abbrev pub is_negotiate : Command → Bool
is_negotiate negotiate = true
is_negotiate _ = false

abbrev pub is_session_setup : Command → Bool
is_session_setup session_setup = true
is_session_setup _ = false

abbrev pub or_zero : Option ℕ → ℕ
or_zero none = 0
or_zero (some n) = n

abbrev pub or_default : ℕ → Option ℕ → ℕ
or_default d none = d
or_default d (some n) = n

-- `Err(e)` of a verification is reported as STATUS_ACCESS_DENIED.
abbrev pub denied : ProtoResult (Unit {0}) → HandlerResult (Unit {0})
denied (Error.ok u) = ok u
denied (Error.err e) = err Ntstatus.access_denied

abbrev pub zero_key : List ℕ
zero_key = replicate 16 0

module _ (S : Storage) ⦃m : Macs⦄ where
  -- What is checked once the request's session is looked up.
  unfoldable pub verify_for :
      Smb2Header → List ℕ → SigningAlgo → Option (Session S) → HandlerResult (Unit {0})
  verify_for hdr frame algo none =
      if has_flag flags_signed hdr.flags then err Ntstatus.user_session_deleted else ok tt
  verify_for hdr frame algo (some s) =
      if has_flag flags_signed hdr.flags
      then (if is_anonymous s.identity then ok tt else denied (verify frame s.signing_key algo))
      else (if not (is_session_setup hdr.command)
            && (s.signing_required && not (is_anonymous s.identity))
          then err Ntstatus.access_denied
          else ok tt)

  unfoldable pub verify_request_signature :
      Connection S → Smb2Header → List ℕ → HandlerResult (Unit {0})
  verify_request_signature c hdr frame =
      if is_negotiate hdr.command || hdr.session_id == 0
      then ok tt
      else verify_for hdr frame c.signing_algo (lookup hdr.session_id c.sessions)

-- The header of a response, before the decision whether it is signed.
unfoldable pub response_header : Smb2Header → HandlerResponse → Smb2Header
response_header req resp = record req {
  flags = clear flags_async_command (bit_or req.flags flags_server_to_redir);
  next_command = 0;
  channel_sequence_status = resp.status;
  tail = sync (or_default (or_zero (tree_id req)) resp.override_tree_id);
  session_id = or_default req.session_id resp.override_session_id;
  signature = replicate 16 0;
}

unfoldable pub is_setup_success : Smb2Header → HandlerResponse → Bool
is_setup_success req resp = is_session_setup req.command && resp.status == Ntstatus.success

-- `body.len() >= 4 && (body[2] & 0x01) != 0`: the guest flag of a SESSION_SETUP response.
unfoldable pub is_guest_response : Smb2Header → HandlerResponse → Bool
is_guest_response req resp =
    is_setup_success req resp && (leb 4 (length resp.body) && has_flag 1 (get_or resp.body 2 0))

-- An error of `sign` is only logged, and the bytes go out as they are.
abbrev pub signed_or_plain : List ℕ → ProtoResult (List ℕ) → List ℕ
signed_or_plain out (Error.ok signed) = signed
signed_or_plain out (Error.err e) = out

module _ (S : Storage) where
  -- The key of a session, where it may sign.
  unfoldable pub key_of : Bool → Option (Session S) → Option (List ℕ)
  key_of guest none = none
  key_of guest (some s) =
      if not (is_anonymous s.identity) && (not guest && not (list_eq s.signing_key zero_key))
      then some s.signing_key
      else none

  unfoldable pub response_key : Connection S → Smb2Header → HandlerResponse → Option (List ℕ)
  response_key c req resp =
      let sid = (response_header req resp).session_id in
      if not resp.skip_signing
        && (not (sid == 0) && (has_flag flags_signed req.flags || is_setup_success req resp))
      then key_of (is_guest_response req resp) (lookup sid c.sessions)
      else none

  module _ ⦃b : Binrw⦄ ⦃m : Macs⦄ where
    unfoldable pub response_bytes : Smb2Header → List ℕ → SigningAlgo → Option (List ℕ) → List ℕ
    response_bytes hdr body algo none =
        write (record hdr { flags = clear flags_signed hdr.flags }) ++ body
    response_bytes hdr body algo (some key) =
        let out = write (record hdr { flags = bit_or hdr.flags flags_signed }) ++ body in
        signed_or_plain out (sign out key algo)

    unfoldable pub build_response_bytes : Connection S → Smb2Header → HandlerResponse → List ℕ
    build_response_bytes c req resp =
        response_bytes (response_header req resp) resp.body c.signing_algo (response_key c req resp)
