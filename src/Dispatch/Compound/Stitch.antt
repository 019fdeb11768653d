-- ===== src/Dispatch/Compound/Stitch.antt =====
-- `stitch_responses` of dispatch.rs: the frame it makes is the chain of the responses, each with its
-- own signature.
use rust_smb_server.Prelude.{
  ℕ, zero, suc, ◌+◌, ◌-◌, ◌^◌, ◌≤◌, ◌<◌, ◌≡◌, refl, sym, ap, ◌∙◌, List, [], ◌∷◌, ◌++◌, append-nil,
  append_assoc, map, length, take, replicate, All, arith, length-append, length-replicate,
}
use rust_smb_server.Prelude.Bytes.{splice, le_bytes}
use rust_smb_server.Proto.Wire.{Binrw}
use rust_smb_server.Proto.Header.{Smb2Header, write, is_async}
use rust_smb_server.Proto.Header.RoundTrip.{FitsHeader, length-write_header}
use rust_smb_server.Proto.Header.Signature.{splice-next_command}
use rust_smb_server.Conn.State.{nat_eq}
use rust_smb_server.Dispatch.Compound.{align_8, resize, append_responses}

-- A response, and the zeros behind it.
pub record Piece : Type 0 where
  pub hdr : Smb2Header
  pub body : List ℕ
  pub pad : ℕ

pub align_8_bounds : (n : ℕ) → (n ≤ align_8 n) × (align_8 n ≤ n + 7)
unfolding align_8
align_8_bounds n = (omega arith, omega arith)

take_long : (n : ℕ) (xs : List ℕ) → length xs ≤ n → take n xs ≡ xs
take_long zero [] h = refl
take_long zero (x ∷ xs) h = absurd (omega arith)
take_long (suc n) [] h = refl
take_long (suc n) (x ∷ xs) h = ap (λ ys. x ∷ ys) (take_long n xs (omega arith))

module _ ⦃b : Binrw⦄ where
  -- The bytes of a response, and those of its piece.
  abbrev pub response : Piece → List ℕ
  response p = write p.hdr ++ p.body

  abbrev pub piece_bytes : Piece → List ℕ
  piece_bytes p = write p.hdr ++ (p.body ++ replicate p.pad 0)

  abbrev pub frame_of : List Piece → List ℕ
  frame_of [] = []
  frame_of (p ∷ ps) = piece_bytes p ++ frame_of ps

  -- A response that is not the last one: its header says where the next one is.
  abbrev pub with_next : Piece → Smb2Header
  with_next p = record p.hdr { next_command = align_8 (length (response p)) }

  abbrev pub padded : Piece → Piece
  padded p = record {
    hdr = with_next p;
    body = p.body;
    pad = align_8 (length (response p)) - length (response p);
  }

  -- Every piece but the last is padded.
  abbrev pub aligned : List Piece → List Piece
  aligned [] = []
  aligned (p ∷ []) = record p { pad = 0 } ∷ []
  aligned (p ∷ q ∷ rest) = padded p ∷ aligned (q ∷ rest)

  abbrev pub ranges : ℕ → List Piece → List (ℕ × ℕ)
  ranges start [] = []
  ranges start (p ∷ ps) = (start, length (response p)) ∷ ranges (start + length (piece_bytes p)) ps

  pub piece-response : (p : Piece) → piece_bytes p ≡ response p ++ replicate p.pad 0
  piece-response p = sym (append_assoc (write p.hdr) p.body (replicate p.pad 0))

  pub length-piece : (p : Piece) → length (piece_bytes p) ≡ length (response p) + p.pad
  length-piece p =
      ap length (piece-response p)
      ∙ (length-append (response p) (replicate p.pad 0)
          ∙ ap (λ n. length (response p) + n) (length-replicate p.pad 0))

  abbrev pub FitsPiece : Piece → Type 0
  FitsPiece p = FitsHeader p.hdr × (p.hdr.next_command ≡ 0) × (length (response p) + 7 < 256 ^ 4)

  resize-pad :
      (out r : List ℕ) (n : ℕ)
      → length r ≤ n
      → resize (length out + n) (out ++ r) ≡ out ++ (r ++ replicate (n - length r) 0)
  resize-pad out r n h =
      rw
        (
          take_long (length out + n) (out ++ r) (omega (arith, length-append out r)),
          append_assoc out r (replicate (length out + n - length (out ++ r)) 0),
        )
        (ap (λ (k : ℕ). out ++ (r ++ replicate k 0)) (omega (arith, length-append out r)))

  pub with_next-FitsHeader : (p : Piece) → FitsPiece p → FitsHeader (with_next p)
  unfolding is_async
  with_next-FitsHeader p (f, single, small) = record {
    credit_charge = f.credit_charge;
    status = f.status;
    credit = f.credit;
    flags = f.flags;
    next_command = omega (arith, (align_8_bounds (length (response p))).1, small);
    message_id = f.message_id;
    tail = f.tail;
    session_id = f.session_id;
    signature = f.signature;
  }

  pub length-response :
      (h : Smb2Header) (body : List ℕ) → FitsHeader h → length (write h ++ body) ≡ 64 + length body
  length-response h body f = omega (arith, length-append (write h) body, length-write_header h f)

  pub same_length : (p : Piece) → FitsPiece p → length (response (padded p)) ≡ length (response p)
  same_length p f =
      length-response (with_next p) p.body (with_next-FitsHeader p f)
      ∙ sym (length-response p.hdr p.body f.0)

  -- The buffer after a response that is not the last one.
  grown :
      (out : List ℕ) (p : Piece)
      → FitsPiece p
      → resize
          (length out + align_8 (length (response p)))
          (out ++ splice (response p) 20 (le_bytes 4 (align_8 (length (response p)))))
        ≡ out ++ piece_bytes (padded p)
  grown out p f =
      let n : ℕ = align_8 (length (response p)) in
      ap (λ r. resize (length out + n) (out ++ r)) (splice-next_command p.hdr p.body n)
      ∙ resize-pad out (response (padded p)) n
          (omega (arith, same_length p f, (align_8_bounds (length (response p))).0))
      ∙ ap (λ (k : ℕ). out ++ (response (padded p) ++ replicate (n - k) 0)) (same_length p f)
      ∙ ap (λ bytes. out ++ bytes) (sym (piece-response (padded p)))

  pub append_responses-aligned :
      (out : List ℕ) (ps : List Piece)
      → All FitsPiece ps
      → append_responses out (map response ps)
        ≡ (out ++ frame_of (aligned ps), ranges (length out) (aligned ps))
  unfolding append_responses
  append_responses-aligned out [] f = rw (append-nil out) refl
  append_responses-aligned out (p ∷ []) f =
      rw (append-nil p.body, append-nil (write p.hdr ++ p.body)) refl
  append_responses-aligned out (p ∷ q ∷ rest) (f, fs) =
      rw
        (
          grown out p f,
          append_responses-aligned (out ++ piece_bytes (padded p)) (q ∷ rest) fs,
          same_length p f,
          length-append out (piece_bytes (padded p)),
          append_assoc out (piece_bytes (padded p)) (frame_of (aligned (q ∷ rest))),
        )
        refl
