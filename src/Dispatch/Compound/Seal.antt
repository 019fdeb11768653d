-- ===== src/Dispatch/Compound/Seal.antt =====
-- The second loop of `stitch_responses` of dispatch.rs: each response is signed where it stands, and the
-- frame is the chain of the responses.
use rust_smb_server.Prelude.{
  ℕ, ◌+◌, if◌then◌else◌, ◌≡◌, refl, sym, ap, ◌∙◌, true, false, Bool-cases, inl, inr, Option, none,
  some, List, [], ◌∷◌, ◌++◌, append-nil, append_assoc, map, length, take, replicate, All, arith,
  length-append, take-append, drop-append,
}
use rust_smb_server.Prelude.Assoc.{lookup}
use rust_smb_server.Prelude.Bytes.{slice, splice, slice-middle, splice-field}
use rust_smb_server.Backend.{Storage}
use rust_smb_server.Access.{is_anonymous}
use rust_smb_server.Proto.Error
use rust_smb_server.Proto.Wire.{Binrw}
use rust_smb_server.Proto.Header.{Smb2Header, write, parse, flags_signed}
use rust_smb_server.Proto.Header.RoundTrip.{FitsHeader, parse-write}
use rust_smb_server.Proto.Header.Signature.{slice-flags, slice-session_id}
use rust_smb_server.Proto.Sign.{Macs, sign, verify, compute_mac_zeroed_signature}
use rust_smb_server.Proto.Sign.Laws.{sign-long, length-mac, verify-sign}
use rust_smb_server.Conn.State.{Session, Connection, nat_eq}
use rust_smb_server.Dispatch.{has_flag}
use rust_smb_server.Dispatch.Signing.{with_signature, signed_or_plain-sign, long}
use rust_smb_server.Dispatch.Compound.{sign_for, sign_part, sign_ranges, stitch_responses}
use rust_smb_server.Dispatch.Compound.Chain.{Chain, last, link}
use rust_smb_server.Dispatch.Compound.Stitch.{
  Piece, response, piece_bytes, frame_of, padded, aligned, ranges, FitsPiece, align_8_bounds,
  with_next-FitsHeader, same_length, append_responses-aligned, piece-response, length-response,
  length-piece,
}

module _ (S : Storage) ⦃b : Binrw⦄ ⦃m : Macs⦄ where
  -- The signature of a response in a frame of several.
  abbrev seal_for : Connection S → Smb2Header → List ℕ → Option (Session S) → List ℕ
  seal_for c hdr body none = hdr.signature
  seal_for c hdr body (some s) =
      if is_anonymous s.identity
      then hdr.signature
      else compute_mac_zeroed_signature (write hdr ++ body) s.signing_key c.signing_algo

  abbrev seal : Connection S → Smb2Header → List ℕ → List ℕ
  seal c hdr body =
      if has_flag flags_signed hdr.flags
      then seal_for c hdr body (lookup hdr.session_id c.sessions)
      else hdr.signature

  abbrev pub sealed : Connection S → Piece → Piece
  sealed c p = record p { hdr = record p.hdr { signature = seal c p.hdr p.body } }

  length-seal_for :
      (c : Connection S) (hdr : Smb2Header) (body : List ℕ) (o : Option (Session S))
      → FitsHeader hdr
      → length (seal_for c hdr body o) ≡ 16
  length-seal_for c hdr body none f = f.signature
  length-seal_for c hdr body (some s) f = elim (Bool-cases (is_anonymous s.identity)) [
    | inl e ↦ rw e f.signature
    | inr e ↦ rw e (length-mac (write hdr ++ body) s.signing_key c.signing_algo)
  ]

  length-seal :
      (c : Connection S) (hdr : Smb2Header) (body : List ℕ)
      → FitsHeader hdr
      → length (seal c hdr body) ≡ 16
  length-seal c hdr body f = elim (Bool-cases (has_flag flags_signed hdr.flags)) [
    | inl e ↦ rw e (length-seal_for c hdr body (lookup hdr.session_id c.sessions) f)
    | inr e ↦ rw e f.signature
  ]

  sign_for-seal_for :
      (c : Connection S) (hdr : Smb2Header) (body : List ℕ) (o : Option (Session S))
      → FitsHeader hdr
      → sign_for S c (write hdr ++ body) o
        ≡ write (record hdr { signature = seal_for c hdr body o }) ++ body
  unfolding sign_for
  sign_for-seal_for c hdr body none f = refl
  sign_for-seal_for c hdr body (some s) f = elim (Bool-cases (is_anonymous s.identity)) [
    | inl e ↦ rw e refl
    | inr e ↦ rw e (signed_or_plain-sign S hdr body s.signing_key c.signing_algo f)
  ]

  sign_part-seal :
      (c : Connection S) (hdr : Smb2Header) (body : List ℕ)
      → FitsHeader hdr
      → sign_part S c (write hdr ++ body)
        ≡ write (record hdr { signature = seal c hdr body }) ++ body
  unfolding sign_part
  sign_part-seal c hdr body f = elim (Bool-cases (has_flag flags_signed hdr.flags)) [
    | inl e ↦
        rw (slice-flags hdr body f.flags, slice-session_id hdr body f, e)
          (sign_for-seal_for c hdr body (lookup hdr.session_id c.sessions) f)
    | inr e ↦ rw (slice-flags hdr body f.flags, e) refl
  ]

  -- A response of a session that may sign verifies under the session's key.
  pub sign_part-verify :
      (c : Connection S) (hdr : Smb2Header) (body : List ℕ) (s : Session S)
      → FitsHeader hdr
      → has_flag flags_signed hdr.flags ≡ true
      → lookup hdr.session_id c.sessions ≡ some s
      → is_anonymous s.identity ≡ false
      → verify (sign_part S c (write hdr ++ body)) s.signing_key c.signing_algo ≡ Error.ok tt
  unfolding sign_part sign_for
  sign_part-verify c hdr body s f flag found known =
      let msg : List ℕ = write hdr ++ body in
      let mac : List ℕ = compute_mac_zeroed_signature msg s.signing_key c.signing_algo in
      let signed : sign msg s.signing_key c.signing_algo ≡ Error.ok (splice msg 48 mac) =
        sign-long msg s.signing_key c.signing_algo (long S hdr body f) in
      rw (slice-flags hdr body f.flags, slice-session_id hdr body f, flag, found, known, signed)
        (verify-sign msg (splice msg 48 mac) s.signing_key c.signing_algo signed)

  sealed-FitsHeader :
      (c : Connection S) (p : Piece) → FitsHeader p.hdr → FitsHeader (sealed c p).hdr
  sealed-FitsHeader c p f =
      with_signature p.hdr (seal c p.hdr p.body) f (length-seal c p.hdr p.body f)

  same_response :
      (c : Connection S) (p : Piece)
      → FitsHeader p.hdr
      → length (response p) ≡ length (response (sealed c p))
  same_response c p f =
      length-response p.hdr p.body f
      ∙ sym (length-response (sealed c p).hdr p.body (sealed-FitsHeader c p f))

  -- The buffer after a response is signed in it.
  signed_in :
      (c : Connection S) (pre : List ℕ) (p : Piece) (rest : List ℕ)
      → FitsHeader p.hdr
      → splice (pre ++ (piece_bytes p ++ rest)) (length pre) (
          sign_part S c (slice (pre ++ (piece_bytes p ++ rest)) (length pre) (length (response p))))
        ≡ pre ++ (piece_bytes (sealed c p) ++ rest)
  signed_in c pre p rest f =
      rw
        (
          piece-response p,
          piece-response (sealed c p),
          append_assoc (response p) (replicate p.pad 0) rest,
          append_assoc (response (sealed c p)) (replicate p.pad 0) rest,
          slice-middle pre (response p) (replicate p.pad 0 ++ rest) (length pre)
              (length (response p)) refl refl,
          sign_part-seal c p.hdr p.body f,
        )
        (splice-field pre (response p) (response (sealed c p)) (replicate p.pad 0 ++ rest)
          (length pre) refl (same_response c p f))

  sign_ranges-sealed :
      (c : Connection S) (pre : List ℕ) (ps : List Piece)
      → All (λ (p : Piece). FitsHeader p.hdr) ps
      → sign_ranges S c (pre ++ frame_of ps) (ranges (length pre) ps)
        ≡ pre ++ frame_of (map (sealed c) ps)
  unfolding sign_ranges
  sign_ranges-sealed c pre [] f = refl
  sign_ranges-sealed c pre (p ∷ ps) (f, fs) =
      let grown : length pre + length (piece_bytes p) ≡ length (pre ++ piece_bytes (sealed c p)) =
        omega (
          arith,
          length-append pre (piece_bytes (sealed c p)),
          length-piece p,
          length-piece (sealed c p),
          same_response c p f,
        ) in
      ap (λ out. sign_ranges S c out (ranges (length pre + length (piece_bytes p)) ps))
        (signed_in c pre p (frame_of ps) f
          ∙ sym (append_assoc pre (piece_bytes (sealed c p)) (frame_of ps)))
      ∙ ap
          (λ (n : ℕ).
            sign_ranges S c ((pre ++ piece_bytes (sealed c p)) ++ frame_of ps) (ranges n ps))
          grown
      ∙ sign_ranges-sealed c (pre ++ piece_bytes (sealed c p)) ps fs
      ∙ append_assoc pre (piece_bytes (sealed c p)) (frame_of (map (sealed c) ps))

  aligned-FitsHeader :
      (ps : List Piece) → All FitsPiece ps → All (λ (p : Piece). FitsHeader p.hdr) (aligned ps)
  aligned-FitsHeader [] f = tt
  aligned-FitsHeader (p ∷ []) (f, fs) = (f.0, tt)
  aligned-FitsHeader (p ∷ q ∷ rest) (f, fs) =
      (with_next-FitsHeader p f, aligned-FitsHeader (q ∷ rest) fs)

  -- The requests that a chain of pieces is read as.
  abbrev pub subs_of : List Piece → List (Smb2Header × List ℕ)
  subs_of = map (λ (p : Piece). (p.hdr, piece_bytes p))

  -- A header that says where its bytes end is a link of a chain.
  pub link_front :
      (hdr : Smb2Header) (body rest : List ℕ) (subs : List (Smb2Header × List ℕ))
      → FitsHeader hdr
      → hdr.next_command ≡ length (write hdr ++ body)
      → Chain rest subs
      → Chain ((write hdr ++ body) ++ rest) ((hdr, write hdr ++ body) ∷ subs)
  link_front hdr body rest subs f here c =
      let read : parse ((write hdr ++ body) ++ rest) ≡ Error.ok (hdr, body ++ rest) =
        ap parse (append_assoc (write hdr) body rest) ∙ parse-write hdr (body ++ rest) f in
      let whole : Chain ((write hdr ++ body) ++ rest)
          ((hdr, take hdr.next_command ((write hdr ++ body) ++ rest)) ∷ subs) =
        link read (omega (arith, length-response hdr body f))
          (omega (arith, length-append (write hdr ++ body) rest))
          (rw (drop-append (write hdr ++ body) rest hdr.next_command (sym here)) c) in
      rw (take-append (write hdr ++ body) rest hdr.next_command (sym here)) at whole

  sealed-Chain :
      (c : Connection S) (p : Piece) (ps : List Piece)
      → All FitsPiece (p ∷ ps)
      → Chain
          (frame_of (map (sealed c) (aligned (p ∷ ps))))
          (subs_of (map (sealed c) (aligned (p ∷ ps))))
  sealed-Chain c p [] ((f, alone, small), fs) =
      let p' : Piece = sealed c (record p { pad = 0 }) in
      let f' : FitsHeader p'.hdr = sealed-FitsHeader c (record p { pad = 0 }) f in
      rw (append-nil (piece_bytes p')) (
        last (omega (arith, length-response p'.hdr (p.body ++ []) f'))
          (parse-write p'.hdr (p.body ++ []) f') alone)
  sealed-Chain c p (q ∷ rest) (f, fs) =
      let p' : Piece = sealed c (padded p) in
      let f' : FitsHeader p'.hdr = sealed-FitsHeader c (padded p) (with_next-FitsHeader p f) in
      link_front p'.hdr (p.body ++ replicate p'.pad 0) _ _ f'
        (omega (
          arith,
          length-piece p',
          same_response c (padded p) (with_next-FitsHeader p f),
          same_length p f,
          (align_8_bounds (length (response p))).0,
        ))
        (sealed-Chain c q rest fs)

  -- The frame made of several responses is a chain of headers that leads through the responses
  -- in order: each header but the last points to the next response behind the padding, and
  -- each response has its fields and its body, under the signature of its own session. The
  -- responses are those of headers whose fields have the widths of their types and whose
  -- NextCommand is 0.
  pub stitch_responses-Chain :
      (c : Connection S) (p : Piece) (ps : List Piece)
      → All FitsPiece (p ∷ ps)
      → Chain
          (stitch_responses S c (map response (p ∷ ps)))
          (subs_of (map (sealed c) (aligned (p ∷ ps))))
  unfolding stitch_responses
  stitch_responses-Chain c p ps f =
      rw
        (
          append_responses-aligned [] (p ∷ ps) f,
          sign_ranges-sealed c [] (aligned (p ∷ ps)) (aligned-FitsHeader (p ∷ ps) f),
        )
        (sealed-Chain c p ps f)
