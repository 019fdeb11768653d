-- ===== src/Dispatch/Signing.antt =====
-- A request that is accepted with a signature carries the signature of its session's key, and a
-- response that is signed verifies. Every response is read back as an answer to its request.
use rust_smb_server.Prelude.{
  ℕ, ◌^◌, ◌≤◌, ◌<◌, ◌==◌, ◌≡◌, refl, ◌||◌, Bool, true, false, Option, none, some, List, ◌++◌,
  length, replicate, arith, length-append,
}
use rust_smb_server.Prelude.Assoc.{lookup}
use rust_smb_server.Prelude.Bytes.{splice}
use rust_smb_server.Backend.{Storage}
use rust_smb_server.Access.{is_anonymous}
use rust_smb_server.Proto.Error
use rust_smb_server.Proto.Error.{ProtoResult}
use rust_smb_server.Proto.Wire.{Binrw}
use rust_smb_server.Proto.Header.{
  Smb2Header, tree_id, write, parse, is_async, is_response, flags_signed,
}
use rust_smb_server.Proto.Header.RoundTrip.{FitsHeader, length-write_header, parse-write}
use rust_smb_server.Proto.Header.Signature.{splice-write}
use rust_smb_server.Proto.Dialect.{SigningAlgo}
use rust_smb_server.Proto.Sign.{Macs, sign, verify, compute_mac_zeroed_signature}
use rust_smb_server.Proto.Sign.Laws.{verify-sign, verify-iff-sign, sign-long, length-mac}
use rust_smb_server.Conn.State.{Session, Connection, nat_eq}
use rust_smb_server.Handlers.{ok}
use rust_smb_server.Dispatch.{
  HandlerResponse, has_flag, is_negotiate, denied, verify_for, verify_request_signature,
  response_header, response_key, response_bytes, build_response_bytes, or_zero, or_default,
  signed_or_plain,
}
use rust_smb_server.Dispatch.Flags.{
  final_flags, final_flags-lt, final_flags-response, final_flags-async,
}

module _ (S : Storage) ⦃m : Macs⦄ where
  denied-ok : (r : ProtoResult (Unit {0})) {u : Unit {0}} → denied r ≡ ok u → r ≡ Error.ok tt
  denied-ok (Error.ok u) h = refl
  denied-ok (Error.err e) h = cc

  verify_request_signature-verify :
      (c : Connection S) (hdr : Smb2Header) (frame : List ℕ) (s : Session S)
      → (is_negotiate hdr.command || hdr.session_id == 0) ≡ false
      → lookup hdr.session_id c.sessions ≡ some s
      → has_flag flags_signed hdr.flags ≡ true
      → is_anonymous s.identity ≡ false
      → verify_request_signature S c hdr frame ≡ ok tt
      → verify frame s.signing_key c.signing_algo ≡ Error.ok tt
  unfolding verify_request_signature verify_for
  verify_request_signature-verify c hdr frame s checked found signed known h =
      denied-ok (verify frame s.signing_key c.signing_algo)
        (rw (checked, found, signed, known) at h)

  pub verify_request_signature-sign :
      (c : Connection S) (hdr : Smb2Header) (frame : List ℕ) (s : Session S)
      → (is_negotiate hdr.command || hdr.session_id == 0) ≡ false
      → lookup hdr.session_id c.sessions ≡ some s
      → has_flag flags_signed hdr.flags ≡ true
      → is_anonymous s.identity ≡ false
      → verify_request_signature S c hdr frame ≡ ok tt
      → sign frame s.signing_key c.signing_algo ≡ Error.ok frame
  verify_request_signature-sign c hdr frame s checked found signed known h =
      (verify-iff-sign frame s.signing_key c.signing_algo).0
        (verify_request_signature-verify c hdr frame s checked found signed known h)

pub with_signature :
    (h : Smb2Header) (sig : List ℕ)
    → FitsHeader h
    → length sig ≡ 16
    → FitsHeader (record h { signature = sig })
unfolding is_async
with_signature h sig f l = record {
  credit_charge = f.credit_charge;
  status = f.status;
  credit = f.credit;
  flags = f.flags;
  next_command = f.next_command;
  message_id = f.message_id;
  tail = f.tail;
  session_id = f.session_id;
  signature = l;
}

-- The fields of a handler's answer have the widths of their types.
pub record FitsResponse (resp : HandlerResponse) : Type 0 where
  pub status : resp.status < 256 ^ 4
  pub tree : or_default 0 resp.override_tree_id < 256 ^ 4
  pub session : or_default 0 resp.override_session_id < 256 ^ 8

module _ (S : Storage) ⦃b : Binrw⦄ ⦃m : Macs⦄ where
  abbrev pub is_some_key : Option (List ℕ) → Bool
  is_some_key none = false
  is_some_key (some key) = true

  -- The header of the bytes, but for the signature.
  abbrev pub answer_header : Connection S → Smb2Header → HandlerResponse → Smb2Header
  answer_header c req resp = record (response_header req resp) {
    flags = final_flags (is_some_key (response_key S c req resp)) req.flags;
  }

  default-lt :
      (d bound : ℕ) (o : Option ℕ) → d < bound → or_default 0 o < bound → or_default d o < bound
  default-lt d bound none h k = h
  default-lt d bound (some n) h k = k

  answer_header-FitsHeader :
      (c : Connection S) (req : Smb2Header) (resp : HandlerResponse)
      → FitsHeader req
      → or_zero (tree_id req) < 256 ^ 4
      → FitsResponse resp
      → FitsHeader (answer_header c req resp)
  unfolding response_header is_async
  answer_header-FitsHeader c req resp f t r =
      let signed : Bool = is_some_key (response_key S c req resp) in
      record {
        credit_charge = f.credit_charge;
        status = r.status;
        credit = f.credit;
        flags = final_flags-lt signed req.flags f.flags;
        next_command = omega arith;
        message_id = f.message_id;
        tail = rw (final_flags-async signed req.flags) (
          omega arith,
          default-lt (or_zero (tree_id req)) (256 ^ 4) resp.override_tree_id t r.tree,
        );
        session_id =
            default-lt req.session_id (256 ^ 8) resp.override_session_id f.session_id r.session;
        signature = refl;
      }

  -- The signature of the bytes: of the session's key, or none.
  abbrev pub answer_signature : Connection S → Option (List ℕ) → List ℕ → List ℕ
  answer_signature c none msg = replicate 16 0
  answer_signature c (some key) msg = compute_mac_zeroed_signature msg key c.signing_algo

  -- The header of an answer that is signed with a key, or with none.
  abbrev unsigned_header : Smb2Header → HandlerResponse → Option (List ℕ) → Smb2Header
  unsigned_header req resp key = record (response_header req resp) {
    flags = final_flags (is_some_key key) req.flags;
  }

  abbrev pub signed_header :
      Connection S → Smb2Header → HandlerResponse → Option (List ℕ) → Smb2Header
  signed_header c req resp key = record (unsigned_header req resp key) {
    signature = answer_signature c key (write (unsigned_header req resp key) ++ resp.body);
  }

  pub long : (h : Smb2Header) (body : List ℕ) → FitsHeader h → 64 ≤ length (write h ++ body)
  long h body f = omega (arith, length-append (write h) body, length-write_header h f)

  -- The bytes that `sign` makes of a header and a body are the header with the signature, and the body.
  pub signed_or_plain-sign :
      (h : Smb2Header) (body key : List ℕ) (algo : SigningAlgo)
      → FitsHeader h
      → signed_or_plain (write h ++ body) (sign (write h ++ body) key algo)
        ≡ write (record h { signature = compute_mac_zeroed_signature (write h ++ body) key algo })
          ++ body
  signed_or_plain-sign h body key algo f =
      rw (sign-long (write h ++ body) key algo (long h body f)) (
        splice-write h body (compute_mac_zeroed_signature (write h ++ body) key algo) f
          (length-mac (write h ++ body) key algo))

  response_bytes-write :
      (c : Connection S) (req : Smb2Header) (resp : HandlerResponse) (key : Option (List ℕ))
      → FitsHeader (unsigned_header req resp key)
      → response_bytes S (response_header req resp) resp.body c.signing_algo key
        ≡ write (signed_header c req resp key) ++ resp.body
  unfolding response_bytes response_header
  response_bytes-write c req resp none f = refl
  response_bytes-write c req resp (some key) f =
      signed_or_plain-sign (unsigned_header req resp (some key)) resp.body key c.signing_algo f

  signed_header-FitsHeader :
      (c : Connection S) (req : Smb2Header) (resp : HandlerResponse) (key : Option (List ℕ))
      → FitsHeader (unsigned_header req resp key)
      → FitsHeader (signed_header c req resp key)
  signed_header-FitsHeader c req resp none f =
      with_signature (unsigned_header req resp none) (replicate 16 0) f refl
  signed_header-FitsHeader c req resp (some key) f =
      with_signature (unsigned_header req resp (some key))
        (compute_mac_zeroed_signature (write (unsigned_header req resp (some key)) ++ resp.body) key
          c.signing_algo)
        f (length-mac (write (unsigned_header req resp (some key)) ++ resp.body) key c.signing_algo)

  -- What the client asks of the header of an answer.
  pub record Answers (req : Smb2Header) (resp : HandlerResponse) (hdr : Smb2Header) : Type 0 where
    pub is_answer : is_response hdr ≡ true
    pub is_sync : is_async hdr ≡ false
    pub same_command : hdr.command ≡ req.command
    pub same_message : hdr.message_id ≡ req.message_id
    pub last : hdr.next_command ≡ 0
    pub status : hdr.channel_sequence_status ≡ resp.status
    pub tree : tree_id hdr ≡ some (or_default (or_zero (tree_id req)) resp.override_tree_id)
    pub session : hdr.session_id ≡ or_default req.session_id resp.override_session_id

  -- The bytes of a response are read back as its header and its body; the header is marked as
  -- a synchronous response, has the command and the message id of the request, the handler's
  -- status, and the tree and the session that the handler set or else those of the request.
  -- The fields of the request and of the answer have the widths of their types.
  pub build_response_bytes-Answers :
      (c : Connection S) (req : Smb2Header) (resp : HandlerResponse)
      → FitsHeader req
      → or_zero (tree_id req) < 256 ^ 4
      → FitsResponse resp
      → let hdr = signed_header c req resp (response_key S c req resp) in
        (parse (build_response_bytes S c req resp) ≡ Error.ok (hdr, resp.body))
        × Answers req resp hdr
  unfolding build_response_bytes response_header is_response is_async
  build_response_bytes-Answers c req resp f t r =
      let key : Option (List ℕ) = response_key S c req resp in
      let fits : FitsHeader (unsigned_header req resp key) =
        answer_header-FitsHeader c req resp f t r in
      (
        rw (response_bytes-write c req resp key fits) (
            parse-write (signed_header c req resp key) resp.body
              (signed_header-FitsHeader c req resp key fits)),
        record {
          is_answer = final_flags-response (is_some_key key) req.flags;
          is_sync = final_flags-async (is_some_key key) req.flags;
          same_command = refl;
          same_message = refl;
          last = refl;
          status = refl;
          tree = refl;
          session = refl;
        },
      )

  -- Where a response has a key to be signed with, its bytes verify under that key. The fields
  -- of the request and of the answer have the widths of their types.
  pub build_response_bytes-verify :
      (c : Connection S) (req : Smb2Header) (resp : HandlerResponse) (key : List ℕ)
      → FitsHeader req
      → or_zero (tree_id req) < 256 ^ 4
      → FitsResponse resp
      → response_key S c req resp ≡ some key
      → verify (build_response_bytes S c req resp) key c.signing_algo ≡ Error.ok tt
  unfolding build_response_bytes response_bytes response_header
  build_response_bytes-verify c req resp key f t r signs =
      let fits : FitsHeader (unsigned_header req resp (some key)) =
        rw signs at (answer_header-FitsHeader c req resp f t r) in
      let msg : List ℕ = write (unsigned_header req resp (some key)) ++ resp.body in
      let signed : sign msg key c.signing_algo
          ≡ Error.ok (splice msg 48 (compute_mac_zeroed_signature msg key c.signing_algo)) =
        sign-long msg key c.signing_algo
          (long (unsigned_header req resp (some key)) resp.body fits) in
      rw (signs, signed)
        (verify-sign msg (splice msg 48 (compute_mac_zeroed_signature msg key c.signing_algo)) key
          c.signing_algo signed)
