-- ===== src/Handlers/Negotiate.antt =====
-- handlers/negotiate.rs: the dialect of a connection, and the two NEGOTIATE responses.
pub mod Laws
pub mod Body
use rust_smb_server.Prelude.{
  ℕ, ◌+◌, ◌-◌, ◌%◌, ◌^◌, ◌==◌, ltb, if◌then◌else◌, ◌||◌, Bool, true, false, Option, none, some,
  List, [], ◌∷◌, ◌++◌, length, replicate, contains,
}
use rust_smb_server.Backend.{Storage}
use rust_smb_server.Ntstatus
use rust_smb_server.Proto.Error
use rust_smb_server.Proto.Error.{ProtoResult}
use rust_smb_server.Proto.Wire.{Binrw}
use rust_smb_server.Proto.Layout.{write, parse}
use rust_smb_server.Proto.Dialect.{
  Dialect, from_u16, smb202, smb210, smb311, SigningAlgo, hmac_sha256, aes_cmac,
}
use rust_smb_server.Proto.Messages.Negotiate.{
  NegotiateRequest, negotiate_request, NegotiateResponse, negotiate_response, NegotiateContext,
  negotiate_context, PreauthIntegrityCapabilities, preauth_integrity_capabilities,
  SigningCapabilities, signing_capabilities, type_preauth_integrity, type_signing, hash_sha512,
  algorithm_aes_cmac,
}
use rust_smb_server.Proto.Messages.Negotiate.Contexts.{encode_list}
use rust_smb_server.Conn.State.{Connection}
use rust_smb_server.Handlers.{HandlerResult, ok, err}
use rust_smb_server.Dispatch.{HandlerResponse, response_ok, response_err}
use rust_smb_server.Dispatch.Compound.{align_8}

abbrev pub negotiate_security_mode : ℕ
negotiate_security_mode = 1

-- `CAP_DFS | CAP_LEASING | CAP_LARGE_MTU`
abbrev pub negotiate_capabilities : ℕ
negotiate_capabilities = 7

abbrev pub supported : List ℕ
supported = 0x0202 ∷ 0x0210 ∷ 0x0300 ∷ 0x0302 ∷ 0x0311 ∷ []

-- `match chosen`, for an offer that is supported.
abbrev pub higher : ℕ → Option ℕ → Option ℕ
higher d none = some d
higher d (some prev) = if ltb prev d then some d else some prev

-- The loop over the offered dialects.
unfoldable pub choose_dialect : Option ℕ → List ℕ → Option ℕ
choose_dialect chosen [] = chosen
choose_dialect chosen (d ∷ rest) =
    choose_dialect (if contains d supported then higher d chosen else chosen) rest

unfoldable pub algo_of : Dialect → SigningAlgo
algo_of smb202 = hmac_sha256
algo_of smb210 = hmac_sha256
algo_of _ = aes_cmac

-- What the handler takes from elsewhere: the SPNEGO blob, the random salt, the clock and the server.
pub record Offer : Type 0 where
  pub security_blob : List ℕ
  pub salt : List ℕ
  pub system_time : ℕ
  pub server_start_filetime : ℕ
  pub server_guid : List ℕ

module _ ⦃b : Binrw⦄ where
  unfoldable pub preauth_context : List ℕ → NegotiateContext
  preauth_context salt =
      let bytes = write preauth_integrity_capabilities (record {
        hash_algorithm_count = 1;
        salt_length = 32;
        hash_algorithms = hash_sha512 ∷ [];
        salt = salt;
      }) in
      record {
        context_type = type_preauth_integrity;
        data_length = length bytes % 2 ^ 16;
        reserved = 0;
        data_bytes = bytes;
      }

  unfoldable pub signing_context : NegotiateContext
  signing_context =
      let bytes =
        write signing_capabilities
          (record { signing_algorithm_count = 1; signing_algorithms = algorithm_aes_cmac ∷ [] }) in
      record {
        context_type = type_signing;
        data_length = length bytes % 2 ^ 16;
        reserved = 0;
        data_bytes = bytes;
      }

  -- The contexts of the dialect 3.1.1.
  abbrev pub contexts : List ℕ → List NegotiateContext
  contexts salt = preauth_context salt ∷ signing_context ∷ []

  abbrev pub security_buffer_offset : ℕ
  security_buffer_offset = 64 + 64

  abbrev pub blob_length : Offer → ℕ
  blob_length offer = length offer.security_blob % 2 ^ 16

  -- Where the contexts are said to stand.
  unfoldable pub context_offset : Offer → ℕ
  context_offset offer = align_8 (security_buffer_offset + blob_length offer)

abbrev pub is_smb311 : Dialect → Bool
is_smb311 smb311 = true
is_smb311 _ = false

module _ (S : Storage) ⦃b : Binrw⦄ where
  -- The fixed part of both responses.
  unfoldable pub response_of : Connection S → Offer → ℕ → ℕ → ℕ → ℕ → NegotiateResponse
  response_of c offer revision capabilities count offset = record {
    structure_size = 65;
    security_mode = negotiate_security_mode;
    dialect_revision = revision;
    negotiate_context_count_or_reserved = count;
    server_guid = offer.server_guid;
    capabilities = capabilities;
    max_transact_size = c.max_read_size;
    max_read_size = c.max_read_size;
    max_write_size = c.max_write_size;
    system_time = offer.system_time;
    server_start_time = offer.server_start_filetime;
    security_buffer_offset = security_buffer_offset;
    security_buffer_length = blob_length offer;
    negotiate_context_offset_or_reserved2 = offset;
    security_buffer = offer.security_blob;
  }

  -- The zeros in front of the contexts.
  abbrev pub pad_to : ℕ → List ℕ → List ℕ
  pad_to offset body =
      if ltb (64 + length body) offset
      then body ++ replicate (offset - (64 + length body)) 0
      else body

  unfoldable pub body_out : Connection S → Offer → ℕ → Dialect → List ℕ
  body_out c offer revision dialect =
      if is_smb311 dialect
      then pad_to (context_offset offer) (
          write negotiate_response
            (response_of c offer revision negotiate_capabilities 2 (context_offset offer)))
        ++ encode_list (contexts offer.salt)
      else write negotiate_response (response_of c offer revision negotiate_capabilities 0 0)

  abbrev pub unsigned : List ℕ → HandlerResponse
  unsigned body = record (response_ok body) { skip_signing = true }

  -- What the handler leaves in the connection.
  unfoldable pub commit : Connection S → NegotiateRequest → Dialect → Connection S
  commit c req dialect = record c {
    dialect = some dialect;
    client_guid = req.client_guid;
    signing_algo = algo_of dialect;
  }

  unfoldable pub negotiated :
      Connection S → Offer → NegotiateRequest → ℕ → Option Dialect → Connection S × HandlerResponse
  negotiated c offer req chosen none = (c, response_err Ntstatus.not_supported)
  negotiated c offer req chosen (some dialect) =
      let c' = commit c req dialect in (c', unsigned (body_out c' offer chosen dialect))

  unfoldable pub negotiate_chosen :
      Connection S → Offer → NegotiateRequest → Option ℕ → Connection S × HandlerResponse
  negotiate_chosen c offer req none = (c, response_err Ntstatus.not_supported)
  negotiate_chosen c offer req (some chosen) = negotiated c offer req chosen (from_u16 chosen)

  abbrev pub negotiate_parsed :
      Connection S → Offer → ProtoResult NegotiateRequest → Connection S × HandlerResponse
  negotiate_parsed c offer (Error.err e) = (c, response_err Ntstatus.invalid_parameter)
  negotiate_parsed c offer (Error.ok req) =
      negotiate_chosen c offer req (choose_dialect none req.dialects)

  unfoldable pub handle : Connection S → Offer → List ℕ → Connection S × HandlerResponse
  handle c offer body = negotiate_parsed c offer (parse negotiate_request body)

  unfoldable pub multi_protocol_response : Connection S → Offer → ℕ → HandlerResponse
  multi_protocol_response c offer chosen =
      unsigned (write negotiate_response (response_of c offer chosen 0 0 0))
