-- ===== src/Conn/Stream/RoundTrip.antt =====
-- What the writer sends, the reader of the other side takes apart again.
use rust_smb_server.Prelude.{
  ℕ, suc, ◌+◌, ◌*◌, ◌/◌, ◌%◌, ◌≤◌, not_ltb, ◌≡◌, refl, ap, ◌∙◌, some, List, [], ◌∷◌, ◌++◌, length,
  take-append, drop-append, length-append, All, arith,
}
use rust_smb_server.Proto.Error.{ok}
use rust_smb_server.Proto.Framing.{encode_frame, decode_frame_header, max_frame_payload}
use rust_smb_server.Proto.Framing.Laws.{encode_frame-header_bytes, decode_frame_header-bytes}
use rust_smb_server.Conn.Stream.{
  frame, end_of_stream, read_payload, read_one_frame, prepend, after_read, read_frames,
  write_frames,
}

abbrev pub FitsFrame : List ℕ → Type 0
FitsFrame payload = length payload ≤ max_frame_payload

decode-header :
    (n : ℕ)
    → n ≤ max_frame_payload
    → decode_frame_header 0 (n / 65536 % 256) (n / 256 % 256) (n % 256) ≡ ok n
decode-header n h =
    rw
      (
        decode_frame_header-bytes (n / 65536 % 256) (n / 256 % 256) (n % 256) (omega arith)
            (omega arith) (omega arith),
        whole,
      )
      refl
  where
    whole : (n / 65536 % 256) * 65536 + (n / 256 % 256) * 256 + n % 256 ≡ n
    whole = omega arith

read_payload-fits :
    (payload bytes : List ℕ)
    → read_payload (ok (length payload)) (payload ++ bytes) ≡ frame payload bytes
unfolding read_payload
read_payload-fits payload bytes =
    rw
      (
        not_ltb (length (payload ++ bytes)) (length payload)
            (omega (arith, length-append payload bytes)),
        take-append payload bytes (length payload) refl,
        drop-append payload bytes (length payload) refl,
      )
      refl

pub read_one_frame-encode_frame :
    (payload bytes : List ℕ)
    → FitsFrame payload
    → read_one_frame (encode_frame payload [] ++ bytes) ≡ frame payload bytes
unfolding read_one_frame
read_one_frame-encode_frame payload bytes h = rw (encode_frame-header_bytes payload [] h) (
    ap (λ r. read_payload r (payload ++ bytes)) (decode-header (length payload) h)
    ∙ read_payload-fits payload bytes)

-- What the writer sends for payloads of at most 16777215 bytes each, the reader takes apart
-- into the same payloads in order, and then meets the end of the stream.
pub read_frames-write_frames :
    (payloads : List (List ℕ))
    → All FitsFrame payloads
    → read_frames (suc (length payloads)) (write_frames payloads) ≡ some (payloads, end_of_stream)
unfolding read_frames write_frames
read_frames-write_frames [] h = refl
read_frames-write_frames (payload ∷ payloads) h =
    ap (after_read (read_frames (suc (length payloads))))
      (read_one_frame-encode_frame payload (write_frames payloads) h.0)
    ∙ ap (prepend payload) (read_frames-write_frames payloads h.1)
