-- ===== src/Conn/Stream.antt =====
-- conn/reader.rs and conn/writer.rs: frames on the byte stream of a socket. A stream is the bytes
-- that arrive before its end; errors of the socket itself are not modelled.
pub mod RoundTrip
pub mod Total
use rust_smb_server.Prelude.{
  ℕ, zero, suc, ltb, if◌then◌else◌, Bool, Option, none, some, List, [], ◌∷◌, ◌++◌, length, take,
  drop,
}
use rust_smb_server.Proto.Error.{ProtoResult, ok, err}
use rust_smb_server.Proto.Framing.{encode_frame, decode_frame_header}

-- `io::Result<Option<Vec<u8>>>`, with the bytes that are still to come.
pub data FrameRead : Type 0 where
  frame : List ℕ → List ℕ → FrameRead
  end_of_stream invalid_data unexpected_eof : FrameRead

unfoldable pub read_payload : ProtoResult ℕ → List ℕ → FrameRead
read_payload (err e) bytes = invalid_data
read_payload (ok len) bytes =
    if ltb (length bytes) len then unexpected_eof else frame (take len bytes) (drop len bytes)

unfoldable pub read_one_frame : List ℕ → FrameRead
unfolding read_payload decode_frame_header
read_one_frame (b0 ∷ b1 ∷ b2 ∷ b3 ∷ bytes) = read_payload (decode_frame_header b0 b1 b2 b3) bytes
read_one_frame _ = end_of_stream

-- A payload in front of those that follow.
abbrev pub prepend :
    List ℕ → Option (List (List ℕ) × FrameRead) → Option (List (List ℕ) × FrameRead)
prepend payload none = none
prepend payload (some (payloads, end)) = some (payload ∷ payloads, end)

-- The loop goes on after a frame, and stops at anything else.
abbrev pub after_read :
    (List ℕ → Option (List (List ℕ) × FrameRead)) → FrameRead → Option (List (List ℕ) × FrameRead)
after_read continue (frame payload rest) = prepend payload (continue rest)
after_read continue end_of_stream = some ([], end_of_stream)
after_read continue invalid_data = some ([], invalid_data)
after_read continue unexpected_eof = some ([], unexpected_eof)

-- The frames of a stream in order, and how it ended; `none` when the fuel is used up.
unfoldable pub read_frames : ℕ → List ℕ → Option (List (List ℕ) × FrameRead)
unfolding read_one_frame
read_frames zero bytes = none
read_frames (suc fuel) bytes = after_read (read_frames fuel) (read_one_frame bytes)

-- What the writer task sends for the payloads of its channel.
unfoldable pub write_frames : List (List ℕ) → List ℕ
unfolding encode_frame
write_frames [] = []
write_frames (payload ∷ payloads) = encode_frame payload [] ++ write_frames payloads
