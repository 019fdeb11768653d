-- ===== src/Dispatch/One.antt =====
-- `dispatch_one` of dispatch.rs: one request from its bytes to those of its response, and the hash of
-- the messages that is kept on the way. The router to the handlers is an argument.
pub mod Laws
use rust_smb_server.Prelude.{
  ℕ, ◌==◌, if◌then◌else◌, ◌&&◌, ◌||◌, not, Bool, true, false, Option, none, some, List, [], ◌∷◌,
}
use rust_smb_server.Prelude.Assoc.{lookup, insert, remove, modify}
use rust_smb_server.Backend.{Storage}
use rust_smb_server.Ntstatus
use rust_smb_server.Proto.Error
use rust_smb_server.Proto.Error.{ProtoResult}
use rust_smb_server.Proto.Wire.{Binrw}
use rust_smb_server.Proto.Header.{Smb2Header, parse}
use rust_smb_server.Proto.Header.Opcode
use rust_smb_server.Proto.Header.Opcode.{Command}
use rust_smb_server.Proto.Dialect.{Dialect, smb311}
use rust_smb_server.Proto.Sign.{Macs}
use rust_smb_server.Proto.Kdf.{Digest, preauth_update, signing_key_311}
use rust_smb_server.Conn.State.{Session, Connection, nat_eq}
use rust_smb_server.Handlers.{HandlerResult, ok, err}
use rust_smb_server.Dispatch.{
  HandlerResponse, response_err, is_negotiate, is_session_setup, verify_request_signature,
  build_response_bytes,
}
use rust_smb_server.Dispatch.Compound.{read_u32, read_u64}

-- What becomes of a request: bytes, no response, or the `expect` of a missing hash.
pub data Outcome : Type 0 where
  answered : List ℕ → Outcome
  silent panicked : Outcome

abbrev pub is_cancel : Command → Bool
is_cancel Opcode.cancel = true
is_cancel _ = false

abbrev pub is_311 : Option Dialect → Bool
is_311 (some smb311) = true
is_311 _ = false

module _ (S : Storage) where
  -- Where no hash is kept for the session, the connection's is where it starts.
  abbrev pub preauth_or : List ℕ → Option (List ℕ) → List ℕ
  preauth_or hash none = hash
  preauth_or hash (some kept) = kept

  unfoldable pub take_session_preauth : Connection S → ℕ → List ℕ × Connection S
  take_session_preauth c session_id = if session_id == 0 then (c.preauth, c) else (
    preauth_or c.preauth (lookup session_id c.session_preauth),
    record c { session_preauth = remove session_id c.session_preauth },
  )

  module _ ⦃d : Digest⦄ where
    -- The hash before the handler: of the connection, or of one session's setup.
    unfoldable pub hash_request :
        Connection S → Smb2Header → List ℕ → Option (List ℕ) × Connection S
    hash_request c hdr frame =
        if is_negotiate hdr.command
        then (none, record c { preauth = preauth_update c.preauth frame })
        else (if is_session_setup hdr.command && is_311 c.dialect
            then (let (hash, c') = take_session_preauth c hdr.session_id in
                (some (preauth_update hash frame), c'))
            else (none, c))

    abbrev pub keep_hash : Connection S → ℕ → Option (List ℕ) → List ℕ → Connection S
    keep_hash c sid none bytes = c
    keep_hash c sid (some hash) bytes = record c {
      session_preauth = insert sid (preauth_update hash bytes) c.session_preauth;
    }

    -- The hash of the response, on the dialect read before the handler ran.
    unfoldable pub hash_response :
        Connection S → Smb2Header → Option Dialect → Option (List ℕ) → List ℕ → Connection S
    hash_response c hdr dialect session_preauth bytes =
        if is_negotiate hdr.command
        then record c { preauth = preauth_update c.preauth bytes }
        else (if is_session_setup hdr.command && is_311 dialect
            then (if read_u32 bytes 0x08 == Ntstatus.more_processing_required
                then keep_hash c (read_u64 bytes 0x28) session_preauth bytes
                else record c { session_preauth = remove hdr.session_id c.session_preauth })
            else c)

  module _ ⦃m : Macs⦄ where
    -- `sess.preauth_snapshot = Some(snap)`, and the key of the dialect 3.1.1.
    unfoldable pub stash : Option Dialect → List ℕ → Session S → Session S
    stash dialect snap s = record s {
      preauth_snapshot = some snap;
      signing_key =
          if is_311 dialect then signing_key_311 s.session_base_key snap else s.signing_key;
    }

    -- The connection, with the hash in the session that the handler named.
    unfoldable pub take_snapshot : Connection S → Option ℕ → Option (List ℕ) → Option (Connection S)
    take_snapshot c none session_preauth = some c
    take_snapshot c (some sid) none = none
    take_snapshot c (some sid) (some snap) =
        some (record c { sessions = modify sid (stash c.dialect snap) c.sessions })

  -- `W` stands for what is outside the connection: the state of the server and of its storage.
  module _ {ℓ} (W : Type ℓ)
      (dispatch_command : Connection S × W
        → Smb2Header
        → List ℕ
        → (Connection S × W) × HandlerResponse)
      ⦃b : Binrw⦄ ⦃m : Macs⦄ ⦃d : Digest⦄ where
    -- What follows the snapshot.
    unfoldable pub answer :
        Smb2Header
        → HandlerResponse
        → Option Dialect
        → Option (List ℕ)
        → Connection S × W
        → Option (Connection S)
        → (Connection S × W) × Outcome
    answer hdr resp dialect session_preauth st none = (st, panicked)
    answer hdr resp dialect session_preauth (_, w) (some c') =
        let bytes = build_response_bytes S c' hdr resp in
        ((hash_response c' hdr dialect session_preauth bytes, w), answered bytes)

    -- A request whose signature is accepted.
    unfoldable pub serve :
        Connection S × W → Smb2Header → List ℕ → List ℕ → (Connection S × W) × Outcome
    serve (c, w) hdr body frame =
        if is_cancel hdr.command
        then ((c, w), silent)
        else (let (session_preauth, hashed) = hash_request c hdr frame in
            let (handled, resp) = dispatch_command (hashed, w) hdr body in
            answer hdr resp c.dialect session_preauth handled
              (take_snapshot handled.0 resp.take_preauth_snapshot_for_session session_preauth))

    unfoldable pub serve_checked :
        Connection S × W
        → Smb2Header
        → List ℕ
        → List ℕ
        → HandlerResult (Unit {0})
        → (Connection S × W) × Outcome
    serve_checked st hdr body frame (ok u) = serve st hdr body frame
    serve_checked (c, w) hdr body frame (err status) =
        ((c, w), answered (build_response_bytes S c hdr (response_err status)))

    unfoldable pub serve_parsed :
        Connection S × W → List ℕ → ProtoResult (Smb2Header × List ℕ) → (Connection S × W) × Outcome
    serve_parsed st frame (Error.err e) = (st, silent)
    serve_parsed (c, w) frame (Error.ok (hdr, body)) =
        serve_checked (c, w) hdr body frame (verify_request_signature S c hdr frame)

    unfoldable pub dispatch_one : Connection S × W → List ℕ → (Connection S × W) × Outcome
    dispatch_one st frame = serve_parsed st frame (parse frame)
