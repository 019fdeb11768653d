-- ===== src/Conn/Stream/Total.antt =====
-- The reader's loop ends on every stream: a frame takes at least its header from the stream.
use rust_smb_server.Prelude.{
  ℕ, zero, suc, ◌≤◌, ◌<◌, ltb, Bool-cases, inl, inr, ◌≡◌, refl, ap, Option, some, List, [], ◌∷◌,
  length, drop, arith,
}
use rust_smb_server.Proto.Error.{ProtoResult, ok, err}
use rust_smb_server.Proto.Framing.{decode_frame_header}
use rust_smb_server.Conn.Stream.{
  FrameRead, frame, end_of_stream, invalid_data, unexpected_eof, read_payload, read_one_frame,
  prepend, after_read, read_frames,
}

length-drop-le : (n : ℕ) (bs : List ℕ) → length (drop n bs) ≤ length bs
length-drop-le zero bs = omega arith
length-drop-le (suc n) [] = omega arith
length-drop-le (suc n) (b ∷ bs) = omega (arith, length-drop-le n bs)

-- What is left of a frame.
abbrev rest_of : FrameRead → List ℕ
rest_of (frame payload rest) = rest
rest_of _ = []

read_payload-rest :
    (r : ProtoResult ℕ) (bs : List ℕ) → length (rest_of (read_payload r bs)) ≤ length bs
unfolding read_payload
read_payload-rest (err e) bs = omega arith
read_payload-rest (ok len) bs = elim (Bool-cases (ltb (length bs) len)) [
  | inl short ↦ rw short (omega arith)
  | inr fits ↦ rw fits (length-drop-le len bs)
]

read_one_frame-rest :
    (bs payload rest : List ℕ) → read_one_frame bs ≡ frame payload rest → length rest < length bs
unfolding read_one_frame
read_one_frame-rest [] payload rest h = cc
read_one_frame-rest (b0 ∷ []) payload rest h = cc
read_one_frame-rest (b0 ∷ b1 ∷ []) payload rest h = cc
read_one_frame-rest (b0 ∷ b1 ∷ b2 ∷ []) payload rest h = cc
read_one_frame-rest (b0 ∷ b1 ∷ b2 ∷ b3 ∷ bs) payload rest h =
    let left : rest_of (read_payload (decode_frame_header b0 b1 b2 b3) bs) ≡ rest = ap rest_of h in
    let short : length rest ≤ length bs =
      rw left at (read_payload-rest (decode_frame_header b0 b1 b2 b3) bs) in
    omega arith

prepend-some :
    (payload : List ℕ) (o : Option (List (List ℕ) × FrameRead)) (p : List (List ℕ) × FrameRead)
    → o ≡ some p
    → prepend payload o ≡ some (payload ∷ p.0, p.1)
prepend-some payload o p h = rw h refl

after_read-total :
    (fuel : ℕ) (bs : List ℕ) (r : FrameRead)
    → read_one_frame bs ≡ r
    → ((rest : List ℕ)
        → length rest < length bs
        → (p : List (List ℕ) × FrameRead) × (read_frames fuel rest ≡ some p))
    → (p : List (List ℕ) × FrameRead) × (after_read (read_frames fuel) r ≡ some p)
after_read-total fuel bs (frame payload rest) h go =
    let (p, e) = go rest (read_one_frame-rest bs payload rest h) in
    ((payload ∷ p.0, p.1), prepend-some payload (read_frames fuel rest) p e)
after_read-total fuel bs end_of_stream h go = (([], end_of_stream), refl)
after_read-total fuel bs invalid_data h go = (([], invalid_data), refl)
after_read-total fuel bs unexpected_eof h go = (([], unexpected_eof), refl)

-- With more fuel than the stream has bytes, the reader's loop ends on every stream.
pub read_frames_total :
    (fuel : ℕ) (bs : List ℕ)
    → length bs < fuel
    → (p : List (List ℕ) × FrameRead) × (read_frames fuel bs ≡ some p)
unfolding read_frames
read_frames_total zero bs h = absurd (omega arith)
read_frames_total (suc fuel) bs h =
    after_read-total fuel bs (read_one_frame bs) refl
      (λ rest short. read_frames_total fuel rest (omega arith))
