-- ===== src/Witnesses/Wire.antt =====
-- The theorems on signatures, frames of several requests and messages at concrete inputs.
use rust_smb_server.Prelude.{
  ℕ, ◌≡◌, ◌≢◌, ◌↔◌, refl, false, Option, none, some, List, [], ◌∷◌, ◌++◌, replicate, map, arith, ap,
  get_or, ◌+◌,
}
use rust_smb_server.Prelude.Bytes.{splice, le_bytes}
use rust_smb_server.Prelude.Assoc.{lookup}
use rust_smb_server.Access.{user, is_anonymous}
use rust_smb_server.Ntstatus
use rust_smb_server.Proto.Error
use rust_smb_server.Proto.Wire.{Binrw, little_endian}
use rust_smb_server.Proto.Layout.{Fits, write}
use rust_smb_server.Proto.Dialect.{hmac_sha256, smb311}
use rust_smb_server.Proto.Header
use rust_smb_server.Proto.Header.{Smb2Header, sync_tail, is_async, is_response, tree_id}
use rust_smb_server.Proto.Header.Opcode
use rust_smb_server.Proto.Header.RoundTrip.{FitsHeader, parse-write}
use rust_smb_server.Proto.Sign.{Macs, sign, verify, mac_of, compute_mac_zeroed_signature}
use rust_smb_server.Proto.Sign.Laws.{verify-iff-sign}
use rust_smb_server.Proto.Kdf.{Digest}
use rust_smb_server.Proto.Messages.Read.{read_response}
use rust_smb_server.Proto.Messages.QueryInfo.{query_info_response}
use rust_smb_server.Proto.Messages.QueryDirectory.{query_directory_response}
use rust_smb_server.Proto.Messages.SessionSetup.{session_setup_response}
use rust_smb_server.Proto.Messages.Ioctl.{IoctlRequest, ioctl_response}
use rust_smb_server.Proto.Messages.Negotiate.{NegotiateContext, negotiate_context}
use rust_smb_server.Proto.Messages.Negotiate.Contexts.{
  parse_list, encode_list, parse_list-encode_list,
}
use rust_smb_server.Conn.State.{Session, Connection, nat_eq}
use rust_smb_server.Dispatch.{
  HandlerResponse, response_ok, response_err, build_response_bytes, response_key, response_header,
  is_setup_success, is_guest_response, key_of,
}
use rust_smb_server.Dispatch.Signing.{
  FitsResponse, signed_header, Answers, build_response_bytes-Answers, build_response_bytes-verify,
}
use rust_smb_server.Dispatch.One.{answered, dispatch_one}
use rust_smb_server.Dispatch.One.Laws.{Unauthentic, dispatch_one-Unauthentic}
use rust_smb_server.Dispatch.Compound.{new_context, out_of_fuel, dispatch_loop, stitch_responses}
use rust_smb_server.Dispatch.Compound.Chain.{Chain, dispatch_loop_returns}
use rust_smb_server.Dispatch.Compound.Stitch.{Piece, response, aligned, FitsPiece, length-response}
use rust_smb_server.Dispatch.Compound.Seal.{sealed, subs_of, stitch_responses-Chain}
use rust_smb_server.Handlers.Negotiate.{Offer, choose_dialect, contexts, body_out}
use rust_smb_server.Handlers.Negotiate.Laws.{Highest, choose_dialect-Highest}
use rust_smb_server.Handlers.Negotiate.Body.{Announced, FitsOffer, body_out-parse_list}
use rust_smb_server.Handlers.Replies.{
  Placed, read_data_reply, query_info_reply, query_directory_reply, session_setup_reply,
  ioctl_reply, replies-Placed,
}
use rust_smb_server.Witnesses.{ram, alice}

-- MACs and a digest of the right lengths.
instance abbrev test_macs : Macs
test_macs = record {
  hmac = λ key msg. replicate 32 7;
  cmac = λ key msg. replicate 16 5;
  hmac_length = λ key msg. refl;
  cmac_length = λ key msg. refl;
}

instance abbrev test_digest : Digest
test_digest = record { sha512 = λ bytes. replicate 64 9; sha512_length = λ bytes. refl }

instance abbrev test_binrw : Binrw
test_binrw = little_endian

abbrev test_key : List ℕ
test_key = replicate 16 3

abbrev signing_session : Session ram
signing_session = record {
  id = 9;
  identity = user alice [];
  session_base_key = replicate 16 0;
  signing_key = test_key;
  signing_required = false;
  trees = [];
  preauth_snapshot = none;
  next_tree_id = 1;
}

abbrev test_connection : Connection ram
test_connection = record {
  connection_id = 1;
  server_guid = replicate 16 1;
  client_guid = replicate 16 0;
  dialect = some smb311;
  signing_algo = hmac_sha256;
  preauth = replicate 64 0;
  max_read_size = 1024;
  max_write_size = 1024;
  sessions = (9, signing_session) ∷ [];
  pending_auths = [];
  session_preauth = [];
  next_session_id = 10;
}

-- An ECHO that says that it is signed, and is not.
abbrev echo_header : Smb2Header
echo_header = record {
  credit_charge = 1;
  channel_sequence_status = 0;
  command = Opcode.echo;
  credit_request_response = 1;
  flags = 8;
  next_command = 0;
  message_id = 7;
  tail = sync_tail 0 0;
  session_id = 9;
  signature = replicate 16 0;
}

echo_header-FitsHeader : FitsHeader echo_header
unfolding is_async
echo_header-FitsHeader = record {
  credit_charge = omega arith;
  status = omega arith;
  credit = omega arith;
  flags = omega arith;
  next_command = omega arith;
  message_id = omega arith;
  tail = (omega arith, omega arith);
  session_id = omega arith;
  signature = refl;
}

abbrev echo_body : List ℕ
echo_body = 4 ∷ 0 ∷ 0 ∷ 0 ∷ []

abbrev echo_frame : List ℕ
echo_frame = Header.write echo_header ++ echo_body

verify-iff-sign_example :
    (verify (replicate 64 0) test_key hmac_sha256 ≡ Error.ok tt)
    ↔ (sign (replicate 64 0) test_key hmac_sha256 ≡ Error.ok (replicate 64 0))
verify-iff-sign_example = verify-iff-sign (replicate 64 0) test_key hmac_sha256

-- A router that counts in the world outside the connection.
abbrev counting_router :
    Connection ram × ℕ → Smb2Header → List ℕ → (Connection ram × ℕ) × HandlerResponse
counting_router (c, n) hdr body = ((c, n + 1), response_ok echo_body)

-- The first byte of a signature.
abbrev byte_48 : Error.ProtoResult (List ℕ) → ℕ
byte_48 (Error.ok bytes) = get_or bytes 48 0
byte_48 (Error.err e) = 0

echo_frame-Unauthentic : Unauthentic ram test_connection echo_header echo_frame signing_session
unfolding lookup sign compute_mac_zeroed_signature mac_of splice Header.write Header.Raw.raw_write
    Header.tail_bytes le_bytes little_endian Opcode.as_u16 is_anonymous
echo_frame-Unauthentic = record {
  checked = refl;
  found = refl;
  known = refl;
  signed = refl;
  not_signed = λ e. let same : 7 ≡ 0 = ap byte_48 e in absurd (omega arith);
}

dispatch_one-Unauthentic_example :
    dispatch_one ram ℕ counting_router (test_connection, 3) echo_frame ≡ (
      (test_connection, 3),
      answered (
          build_response_bytes ram test_connection echo_header
            (response_err Ntstatus.access_denied)),
    )
dispatch_one-Unauthentic_example =
    dispatch_one-Unauthentic ram ℕ counting_router test_connection 3 echo_header echo_body
      echo_frame signing_session (parse-write echo_header echo_body echo_header-FitsHeader)
      echo_frame-Unauthentic

abbrev ok_response : HandlerResponse
ok_response = record {
  body = echo_body;
  status = Ntstatus.success;
  override_tree_id = none;
  override_session_id = none;
  skip_signing = false;
  take_preauth_snapshot_for_session = none;
}

ok_response-FitsResponse : FitsResponse ok_response
ok_response-FitsResponse = record {
  status = omega arith;
  tree = omega arith;
  session = omega arith;
}

build_response_bytes-Answers_example :
    let hdr =
      signed_header ram test_connection echo_header ok_response
        (response_key ram test_connection echo_header ok_response) in
    (Header.parse (build_response_bytes ram test_connection echo_header ok_response)
      ≡ Error.ok (hdr, echo_body))
    × Answers ram echo_header ok_response hdr
build_response_bytes-Answers_example =
    build_response_bytes-Answers ram test_connection echo_header ok_response echo_header-FitsHeader
      (omega arith) ok_response-FitsResponse

build_response_bytes-verify_example :
    verify (build_response_bytes ram test_connection echo_header ok_response) test_key hmac_sha256
    ≡ Error.ok tt
unfolding response_key response_header is_setup_success is_guest_response key_of lookup is_anonymous
build_response_bytes-verify_example =
    build_response_bytes-verify ram test_connection echo_header ok_response test_key
      echo_header-FitsHeader (omega arith) ok_response-FitsResponse refl

abbrev deaf : Connection ram → List ℕ → ℕ → Connection ram × Option (List ℕ)
deaf c frame n = (c, some frame)

dispatch_loop_returns_example :
    (dispatch_loop (Connection ram) deaf 3 test_connection new_context (1 ∷ 2 ∷ [])).1 ≢ out_of_fuel
dispatch_loop_returns_example =
    dispatch_loop_returns (Connection ram) deaf 3 test_connection new_context (1 ∷ 2 ∷ [])
      (omega arith)

-- A CREATE, and a CLOSE of the file that it opens: all three ids are those of the CREATE.
abbrev create_header : Smb2Header
create_header = record {
  credit_charge = 1;
  channel_sequence_status = 0;
  command = Opcode.create;
  credit_request_response = 1;
  flags = 0;
  next_command = 72;
  message_id = 7;
  tail = sync_tail 0 5;
  session_id = 9;
  signature = replicate 16 0;
}

abbrev close_header : Smb2Header
close_header = record {
  credit_charge = 1;
  channel_sequence_status = 0;
  command = Opcode.close;
  credit_request_response = 1;
  flags = 4;
  next_command = 0;
  message_id = 8;
  tail = sync_tail 0 0xffff_ffff;
  session_id = 0xffff_ffff_ffff_ffff;
  signature = replicate 16 0;
}

abbrev close_body : List ℕ
close_body = replicate 8 0 ++ replicate 16 255

abbrev create_and_close : List (Smb2Header × List ℕ)
create_and_close = (create_header, replicate 8 0) ∷ (close_header, close_body) ∷ []

abbrev compound_frame : List ℕ
compound_frame =
    (Header.write create_header ++ replicate 8 0) ++ (Header.write close_header ++ close_body)

-- Every request is answered with a CREATE response whose file id is 16 times the number of those
-- before.
abbrev create_replies : Connection ram × ℕ → List ℕ → ℕ → (Connection ram × ℕ) × Option (List ℕ)
create_replies (c, n) frame place =
    ((c, n + 1), some (Header.write create_header ++ (replicate 64 0 ++ replicate 24 n)))

abbrev echo_piece : Piece
echo_piece = record { hdr = echo_header; body = echo_body; pad = 0 }

echo_piece-FitsPiece : FitsPiece echo_piece
echo_piece-FitsPiece = (
  echo_header-FitsHeader,
  refl,
  omega (arith, length-response echo_header echo_body echo_header-FitsHeader),
)

stitch_responses-Chain_example :
    Chain
      (stitch_responses ram test_connection (response echo_piece ∷ response echo_piece ∷ []))
      (subs_of ram (map (sealed ram test_connection) (aligned (echo_piece ∷ echo_piece ∷ []))))
stitch_responses-Chain_example =
    stitch_responses-Chain ram test_connection echo_piece (echo_piece ∷ [])
      (echo_piece-FitsPiece, (echo_piece-FitsPiece, tt))

abbrev a_context : NegotiateContext
a_context = record { context_type = 8; data_length = 3; reserved = 0; data_bytes = 1 ∷ 2 ∷ 3 ∷ [] }

a_context-Fits : Fits negotiate_context a_context
unfolding negotiate_context
a_context-Fits = (omega arith, (omega arith, (omega arith, refl)))

parse_list-encode_list_example :
    parse_list (encode_list (a_context ∷ a_context ∷ []) ++ 9 ∷ []) 2
    ≡ Error.ok (a_context ∷ a_context ∷ [])
parse_list-encode_list_example =
    parse_list-encode_list (a_context ∷ a_context ∷ []) (9 ∷ [])
      (a_context-Fits, (a_context-Fits, tt))

abbrev an_offer : Offer
an_offer = record {
  security_blob = 1 ∷ 2 ∷ 3 ∷ [];
  salt = replicate 32 4;
  system_time = 5;
  server_start_filetime = 1;
  server_guid = replicate 16 1;
}

choose_dialect-Highest_example :
    Highest (0x0210 ∷ 0x0302 ∷ 0x9999 ∷ []) (choose_dialect none (0x0210 ∷ 0x0302 ∷ 0x9999 ∷ []))
choose_dialect-Highest_example = choose_dialect-Highest (0x0210 ∷ 0x0302 ∷ 0x9999 ∷ [])

an_offer-FitsOffer : FitsOffer test_connection an_offer 0x0311
an_offer-FitsOffer = record {
  revision = omega arith;
  guid = refl;
  max_read = omega arith;
  max_write = omega arith;
  system_time = omega arith;
  start_time = omega arith;
  blob = omega arith;
}

body_out-parse_list_example :
    Announced (body_out ram test_connection an_offer 0x0311 smb311) (contexts (replicate 32 4))
body_out-parse_list_example =
    body_out-parse_list ram test_connection an_offer 0x0311 an_offer-FitsOffer refl

abbrev an_ioctl : IoctlRequest
an_ioctl = record {
  structure_size = 57;
  reserved = 0;
  ctl_code = 0x0014_0204;
  file_id = record { persistent = 1; volatile = 2 };
  input_offset = 120;
  input_count = 0;
  max_input_response = 0;
  output_offset = 0;
  output_count = 0;
  max_output_response = 24;
  flags = 1;
  reserved2 = 0;
  input = [];
}

replies-Placed_example :
    let header : List ℕ = replicate 64 0 in
    let bytes : List ℕ = 1 ∷ 2 ∷ [] in
    let blob : List ℕ = 3 ∷ [] in
    let read = read_data_reply bytes in
    let info = query_info_reply bytes in
    let entries = query_directory_reply bytes in
    let setup = session_setup_reply blob 0 in
    let control = ioctl_reply an_ioctl bytes in
    Placed header (write read_response read) read.data_offset read.data_length bytes
    × Placed header
        (write query_info_response info)
        info.output_buffer_offset
        info.output_buffer_length
        bytes
    × Placed header
        (write query_directory_response entries)
        entries.output_buffer_offset
        entries.output_buffer_length
        bytes
    × Placed header
        (write session_setup_response setup)
        setup.security_buffer_offset
        setup.security_buffer_length
        blob
    × Placed header (write ioctl_response control) control.output_offset control.output_count bytes
replies-Placed_example =
    replies-Placed (replicate 64 0) refl (1 ∷ 2 ∷ []) (3 ∷ []) 0 an_ioctl (omega arith)
      (omega arith)
