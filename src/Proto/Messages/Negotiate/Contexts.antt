-- ===== src/Proto/Messages/Negotiate/Contexts.antt =====
-- `NegotiateContext::parse_list` and `NegotiateContext::encode_list` of proto/messages/negotiate.rs:
-- every context but the first starts at a multiple of eight.
use rust_smb_server.Prelude.{
  ℕ, zero, suc, ◌+◌, ◌-◌, ◌%◌, ltb, not_ltb, not, ◌≡◌, refl, sym, ap, ◌∙◌, List, [], ◌∷◌, ◌++◌,
  append_assoc, append-nil, length, drop, replicate, All, arith, length-append, length-replicate,
  drop-append,
}
use rust_smb_server.Proto.Error.{ProtoResult, ok, malformed, ◌>>=◌, ◌>>◌, guard}
use rust_smb_server.Proto.Wire.{Binrw}
use rust_smb_server.Proto.Layout.{Fits, read, write, layout-read-write}
use rust_smb_server.Proto.Messages.Negotiate.{NegotiateContext, negotiate_context}

-- How far it is to the next multiple of eight.
abbrev pub pad_of : ℕ → ℕ
pad_of n = (8 - n % 8) % 8

module _ ⦃b : Binrw⦄ where
  -- The rest of the loop of `parse_list`: the contexts to come, and the bytes consumed.
  unfoldable pub parse_contexts : ℕ → ℕ → List ℕ → ProtoResult (List NegotiateContext)
  parse_contexts zero consumed_total buf = ok []
  parse_contexts (suc count) consumed_total buf = do
    guard (not (ltb (length buf) (pad_of consumed_total))) malformed
    (ctx, rest) ← read negotiate_context (drop (pad_of consumed_total) buf)
    ctxs ← parse_contexts count (consumed_total + (length buf - length rest)) rest
    ok (ctx ∷ ctxs)

  unfoldable pub parse_list : List ℕ → ℕ → ProtoResult (List NegotiateContext)
  parse_list buf count = parse_contexts count 0 buf

  -- The turns of the loop of `encode_list` past the first, on what is written since `start`.
  unfoldable pub encode_rest : List ℕ → List NegotiateContext → List ℕ
  encode_rest out [] = out
  encode_rest out (ctx ∷ rest) =
      encode_rest ((out ++ replicate (pad_of (length out)) 0) ++ write negotiate_context ctx) rest

  unfoldable pub encode_list : List NegotiateContext → List ℕ
  encode_list [] = []
  encode_list (ctx ∷ rest) = encode_rest (write negotiate_context ctx) rest

  -- The bytes of the contexts, behind `n` bytes.
  abbrev encoded_from : ℕ → List NegotiateContext → List ℕ
  encoded_from n [] = []
  encoded_from n (ctx ∷ rest) =
      replicate (pad_of n) 0
      ++ (write negotiate_context ctx
          ++ encoded_from (n + pad_of n + length (write negotiate_context ctx)) rest)

  encode_rest-encoded_from :
      (out : List ℕ) (ctxs : List NegotiateContext)
      → encode_rest out ctxs ≡ out ++ encoded_from (length out) ctxs
  unfolding encode_rest
  encode_rest-encoded_from out [] = sym (append-nil out)
  encode_rest-encoded_from out (ctx ∷ rest) =
      let pad : List ℕ = replicate (pad_of (length out)) 0 in
      let bytes : List ℕ = write negotiate_context ctx in
      encode_rest-encoded_from ((out ++ pad) ++ bytes) rest
      ∙ ap (λ (n : ℕ). ((out ++ pad) ++ bytes) ++ encoded_from n rest)
          (omega (
            arith,
            length-append (out ++ pad) bytes,
            length-append out pad,
            length-replicate {A = ℕ} (pad_of (length out)) 0,
          ))
      ∙ append_assoc (out ++ pad) bytes _
      ∙ append_assoc out pad _

  encode_list-encoded_from : (ctxs : List NegotiateContext) → encode_list ctxs ≡ encoded_from 0 ctxs
  unfolding encode_list
  encode_list-encoded_from [] = refl
  encode_list-encoded_from (ctx ∷ rest) =
      encode_rest-encoded_from (write negotiate_context ctx) rest
      ∙ ap (λ (n : ℕ). write negotiate_context ctx ++ encoded_from n rest) (omega arith)

  parse_contexts-encoded_from :
      (n : ℕ) (ctxs : List NegotiateContext) (rest : List ℕ)
      → All (Fits negotiate_context) ctxs
      → parse_contexts (length ctxs) n (encoded_from n ctxs ++ rest) ≡ ok ctxs
  unfolding parse_contexts
  parse_contexts-encoded_from n [] rest f = refl
  parse_contexts-encoded_from n (ctx ∷ ctxs) rest (f, fs) =
      let pad : List ℕ = replicate (pad_of n) 0 in
      let bytes : List ℕ = write negotiate_context ctx in
      let next : ℕ = n + pad_of n + length bytes in
      let tail : List ℕ = encoded_from next ctxs ++ rest in
      let shape : encoded_from n (ctx ∷ ctxs) ++ rest ≡ pad ++ (bytes ++ tail) =
        append_assoc pad (bytes ++ encoded_from next ctxs) rest
        ∙ ap (λ bs. pad ++ bs) (append_assoc bytes (encoded_from next ctxs) rest) in
      let size : length (pad ++ (bytes ++ tail)) ≡ pad_of n + (length bytes + length tail) = omega (
        arith,
        length-append pad (bytes ++ tail),
        length-append bytes tail,
        length-replicate {A = ℕ} (pad_of n) 0,
      ) in
      let consumed : n + (pad_of n + (length bytes + length tail) - length tail) ≡ next =
        omega arith in
      rw
        (
          shape,
          size,
          not_ltb (pad_of n + (length bytes + length tail)) (pad_of n) (omega arith),
          drop-append pad (bytes ++ tail) (pad_of n) (length-replicate {A = ℕ} (pad_of n) 0),
          layout-read-write negotiate_context ctx tail f,
          consumed,
          parse_contexts-encoded_from next ctxs rest fs,
        )
        refl

  -- A list of negotiate contexts is read back from what encode_list makes of it, whatever
  -- follows, where the fields of each have the widths of their types and its data has the
  -- length that it gives.
  pub parse_list-encode_list :
      (ctxs : List NegotiateContext) (rest : List ℕ)
      → All (Fits negotiate_context) ctxs
      → parse_list (encode_list ctxs ++ rest) (length ctxs) ≡ ok ctxs
  unfolding parse_list
  parse_list-encode_list ctxs rest f =
      rw (encode_list-encoded_from ctxs) (parse_contexts-encoded_from 0 ctxs rest f)
