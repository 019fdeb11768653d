-- ===== src/Dispatch/One/Laws.antt =====
-- What a request must carry before it reaches a handler.
use rust_smb_server.Prelude.{ℕ, ◌==◌, ◌||◌, ◌≡◌, ◌≢◌, refl, true, false, some, List}
use rust_smb_server.Prelude.Assoc.{lookup}
use rust_smb_server.Backend.{Storage}
use rust_smb_server.Access.{is_anonymous}
use rust_smb_server.Ntstatus
use rust_smb_server.Proto.Error
use rust_smb_server.Proto.Wire.{Binrw}
use rust_smb_server.Proto.Header.{Smb2Header, parse, flags_signed}
use rust_smb_server.Proto.Sign.{Macs, sign, verify}
use rust_smb_server.Proto.Kdf.{Digest}
use rust_smb_server.Proto.Sign.Laws.{verify-iff-sign}
use rust_smb_server.Conn.State.{Session, Connection, nat_eq}
use rust_smb_server.Handlers.{err}
use rust_smb_server.Dispatch.{
  HandlerResponse, response_err, has_flag, denied, is_negotiate, verify_for,
  verify_request_signature, build_response_bytes,
}
use rust_smb_server.Dispatch.One.{answered, serve_checked, serve_parsed, dispatch_one}

denied-err :
    (r : Error.ProtoResult (Unit {0})) → r ≢ Error.ok tt → denied r ≡ err Ntstatus.access_denied
denied-err (Error.ok tt) h = absurd (h refl)
denied-err (Error.err e) h = refl

module _ (S : Storage) ⦃m : Macs⦄ where
  -- A request that says that it is signed, in the name of a session that may sign, and that the
  -- key of the session did not sign.
  pub record Unauthentic (c : Connection S) (hdr : Smb2Header) (frame : List ℕ) (s : Session S)
      : Type 0 where
    pub checked : (is_negotiate hdr.command || hdr.session_id == 0) ≡ false
    pub found : lookup hdr.session_id c.sessions ≡ some s
    pub known : is_anonymous s.identity ≡ false
    pub signed : has_flag flags_signed hdr.flags ≡ true
    pub not_signed : sign frame s.signing_key c.signing_algo ≢ Error.ok frame

  Unauthentic-refused :
      (c : Connection S) (hdr : Smb2Header) (frame : List ℕ) (s : Session S)
      → Unauthentic c hdr frame s
      → verify_request_signature S c hdr frame ≡ err Ntstatus.access_denied
  unfolding verify_request_signature verify_for
  Unauthentic-refused c hdr frame s u =
      rw (u.checked, u.found, u.signed, u.known)
        (denied-err (verify frame s.signing_key c.signing_algo)
          (λ e. u.not_signed ((verify-iff-sign frame s.signing_key c.signing_algo).0 e)))

module _ {ℓ} (S : Storage) (W : Type ℓ)
    (dispatch_command : Connection S × W
      → Smb2Header
      → List ℕ
      → (Connection S × W) × HandlerResponse)
    ⦃b : Binrw⦄ ⦃m : Macs⦄ ⦃d : Digest⦄ where
  -- A request that has the flag of a signed one, in the name of a known, non-anonymous session
  -- (and is no NEGOTIATE), changes neither the connection nor the world outside it and is
  -- answered with STATUS_ACCESS_DENIED, unless it is what signing with the session's key makes
  -- of it.
  pub dispatch_one-Unauthentic :
      (c : Connection S) (w : W) (hdr : Smb2Header) (body frame : List ℕ) (s : Session S)
      → parse frame ≡ Error.ok (hdr, body)
      → Unauthentic S c hdr frame s
      → dispatch_one S W dispatch_command (c, w) frame
        ≡ ((c, w), answered (build_response_bytes S c hdr (response_err Ntstatus.access_denied)))
  unfolding dispatch_one serve_parsed serve_checked
  dispatch_one-Unauthentic c w hdr body frame s p u =
      rw (p, Unauthentic-refused S c hdr frame s u) refl
