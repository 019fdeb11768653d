-- ===== src/Handlers/Negotiate/Body.antt =====
-- The body of the NEGOTIATE response: where its negotiate contexts stand, and what is read there.
use rust_smb_server.Prelude.{
  ℕ, ◌+◌, ◌-◌, ◌%◌, ◌^◌, ◌≤◌, ◌<◌, ltb, ◌≡◌, sym, ap, ◌∙◌, Bool-cases, inl, inr, List, [],
  append-nil, length, drop, replicate, All, arith, length-append, length-replicate, drop-append,
  append_assoc,
}
use rust_smb_server.Backend.{Storage}
use rust_smb_server.Proto.Error
use rust_smb_server.Proto.Wire.{Binrw, length-write}
use rust_smb_server.Proto.Layout.{Fits, write, parse, parse_message-write}
use rust_smb_server.Proto.Dialect.{smb311}
use rust_smb_server.Proto.Messages.Negotiate.{
  NegotiateResponse, NegotiateContext, negotiate_response, negotiate_context,
  preauth_integrity_capabilities, signing_capabilities,
}
use rust_smb_server.Proto.Messages.Negotiate.Contexts.{
  encode_list, parse_list, parse_list-encode_list,
}
use rust_smb_server.Conn.State.{Connection}
use rust_smb_server.Dispatch.Compound.{align_8}
use rust_smb_server.Handlers.Negotiate.{
  Offer, contexts, preauth_context, signing_context, context_offset, response_of, body_out, pad_to,
  negotiate_capabilities,
}

module _ ⦃b : Binrw⦄ where
  -- A body that is read as a response, and the contexts that are read where the response says,
  -- as many as it says.
  pub record Announced (body : List ℕ) (expected : List NegotiateContext) : Type 0 where
    pub response : NegotiateResponse
    pub parsed : parse negotiate_response body ≡ Error.ok response
    pub aligned : response.negotiate_context_offset_or_reserved2 % 8 ≡ 0
    pub behind :
        64 + (64 + response.security_buffer_length) ≤ response.negotiate_context_offset_or_reserved2
    pub read_back :
        parse_list
          (drop (response.negotiate_context_offset_or_reserved2 - 64) body)
          response.negotiate_context_count_or_reserved
        ≡ Error.ok expected

-- The values that the handler puts into the response have the widths of their types.
pub record FitsOffer {S : Storage} (c : Connection S) (offer : Offer) (chosen : ℕ) : Type 0 where
  pub revision : chosen < 256 ^ 2
  pub guid : length offer.server_guid ≡ 16
  pub max_read : c.max_read_size < 256 ^ 4
  pub max_write : c.max_write_size < 256 ^ 4
  pub system_time : offer.system_time < 256 ^ 8
  pub start_time : offer.server_start_filetime < 256 ^ 8
  pub blob : length offer.security_blob < 2 ^ 16

module _ (S : Storage) ⦃b : Binrw⦄ where
  -- The response up to the end of the blob.
  length-response_of :
      (c : Connection S) (offer : Offer) (revision capabilities count offset : ℕ)
      → length offer.server_guid ≡ 16
      → length (write negotiate_response (response_of S c offer revision capabilities count offset))
        ≡ 64 + length offer.security_blob
  unfolding response_of negotiate_response
  length-response_of c offer revision capabilities count offset guid =
      simp (length-append, length-write) (omega (arith, guid))

  -- The padded response ends where the contexts are said to stand.
  length-pad_to :
      (offset : ℕ) (body : List ℕ)
      → 64 + length body ≤ offset
      → length (pad_to S offset body) ≡ offset - 64
  length-pad_to offset body h = elim (Bool-cases (ltb (64 + length body) offset)) [
    | inl e ↦ rw e (
        length-append body (replicate (offset - (64 + length body)) 0)
        ∙ ap (λ (n : ℕ). length body + n) (length-replicate (offset - (64 + length body)) 0)
        ∙ omega arith)
    | inr e ↦ rw e (let same : offset ≡ 64 + length body = ground arith in omega arith)
  ]

  context_offset_bound :
      (offer : Offer)
      → length offer.security_blob < 2 ^ 16
      → 128 + length offer.security_blob ≤ context_offset offer
  unfolding context_offset align_8
  context_offset_bound offer small = omega arith

  context_offset_aligned : (offer : Offer) → context_offset offer % 8 ≡ 0
  unfolding context_offset align_8
  context_offset_aligned offer = omega arith

  preauth_context-Fits :
      (salt : List ℕ) → length salt ≡ 32 → Fits negotiate_context (preauth_context salt)
  unfolding preauth_context negotiate_context preauth_integrity_capabilities
  preauth_context-Fits salt l = (
    omega arith,
    (omega arith, (omega arith, simp (length-append, length-write, append-nil) (omega (arith, l)))),
  )

  signing_context-Fits : Fits negotiate_context signing_context
  unfolding signing_context negotiate_context signing_capabilities
  signing_context-Fits = (
    omega arith,
    (omega arith, (omega arith, simp (length-append, length-write, append-nil) (omega arith))),
  )

  contexts-Fits : (salt : List ℕ) → length salt ≡ 32 → All (Fits negotiate_context) (contexts salt)
  contexts-Fits salt l = (preauth_context-Fits salt l, (signing_context-Fits, tt))

  drop-body_out :
      (c : Connection S) (offer : Offer) (revision : ℕ)
      → length offer.server_guid ≡ 16
      → length offer.security_blob < 2 ^ 16
      → drop (context_offset offer - 64) (body_out S c offer revision smb311)
        ≡ encode_list (contexts offer.salt)
  unfolding body_out
  drop-body_out c offer revision guid small =
      let body : List ℕ =
        write negotiate_response
          (response_of S c offer revision negotiate_capabilities 2 (context_offset offer)) in
      drop-append (pad_to S (context_offset offer) body) (encode_list (contexts offer.salt))
        (context_offset offer - 64)
        (length-pad_to (context_offset offer) body (
          omega (
            arith,
            length-response_of c offer revision negotiate_capabilities 2 (context_offset offer)
                guid,
            context_offset_bound offer small,
          )))

  context_offset_small :
      (offer : Offer) → length offer.security_blob < 2 ^ 16 → context_offset offer < 256 ^ 4
  unfolding context_offset align_8
  context_offset_small offer small = omega arith

  -- The fields of the response have the widths of their types.
  response_of-Fits :
      (c : Connection S) (offer : Offer) (revision : ℕ)
      → FitsOffer c offer revision
      → Fits negotiate_response
          (response_of S c offer revision negotiate_capabilities 2 (context_offset offer))
  unfolding response_of negotiate_response
  response_of-Fits c offer revision f = (
    omega arith,
    (
      omega arith,
      (
        f.revision,
        (
          omega arith,
          (
            f.guid,
            (
              omega arith,
              (
                f.max_read,
                (
                  f.max_read,
                  (
                    f.max_write,
                    (
                      f.system_time,
                      (
                        f.start_time,
                        (
                          omega arith,
                          (omega arith, (context_offset_small offer f.blob, omega (arith, f.blob))),
                        ),
                      ),
                    ),
                  ),
                ),
              ),
            ),
          ),
        ),
      ),
    ),
  )

  -- The response is read back from its body, whatever stands behind it.
  parse-body_out :
      (c : Connection S) (offer : Offer) (revision : ℕ)
      → FitsOffer c offer revision
      → parse negotiate_response (body_out S c offer revision smb311)
        ≡ Error.ok (response_of S c offer revision negotiate_capabilities 2 (context_offset offer))
  unfolding body_out
  parse-body_out c offer revision f =
      let r : NegotiateResponse =
        response_of S c offer revision negotiate_capabilities 2 (context_offset offer) in
      let body : List ℕ = write negotiate_response r in
      let fits : Fits negotiate_response r = response_of-Fits c offer revision f in
      elim (Bool-cases (ltb (64 + length body) (context_offset offer))) [
        | inl e ↦
            rw (e, append_assoc body (replicate (context_offset offer - (64 + length body)) 0) _)
              (parse_message-write negotiate_response r _ fits)
        | inr e ↦ rw e (parse_message-write negotiate_response r _ fits)
      ]

  -- On the dialect 3.1.1 the body of the NEGOTIATE response is read back as a response whose
  -- context offset is a multiple of eight behind the security blob, and as many negotiate
  -- contexts as it counts are read from the bytes at that offset: the two contexts that were
  -- put in. The values of the response have the widths of their types, the server's GUID has
  -- 16 bytes and the salt 32.
  pub body_out-parse_list :
      (c : Connection S) (offer : Offer) (revision : ℕ)
      → FitsOffer c offer revision
      → length offer.salt ≡ 32
      → Announced (body_out S c offer revision smb311) (contexts offer.salt)
  unfolding response_of
  body_out-parse_list c offer revision f salt = record {
    response = response_of S c offer revision negotiate_capabilities 2 (context_offset offer);
    parsed = parse-body_out c offer revision f;
    aligned = context_offset_aligned offer;
    behind = omega (arith, context_offset_bound offer f.blob);
    read_back =
        rw
          (
            drop-body_out c offer revision f.guid f.blob,
            sym (append-nil (encode_list (contexts offer.salt))),
          )
          (parse_list-encode_list (contexts offer.salt) [] (contexts-Fits offer.salt salt));
  }
