-- ===== src/Proto/Framing.antt =====
-- proto/framing.rs: the four bytes in front of every packet.
pub mod Laws
use rust_smb_server.Prelude.{
  ℕ, ◌+◌, ◌*◌, ◌/◌, ◌%◌, ◌^◌, List, [], ◌∷◌, ◌++◌, length, take, drop, bit_and, bit_or, ◌==◌, ltb,
  if◌then◌else◌,
}
use rust_smb_server.Proto.Error.{ProtoResult, ok, err, malformed, ◌>>=◌}

abbrev pub frame_header_len : ℕ
frame_header_len = 4

abbrev pub max_frame_payload : ℕ
max_frame_payload = 0x00ff_ffff

-- `payload.len() as u32` keeps the low 32 bits; `& 0xFF` and `as u8` keep eight.
unfoldable pub encode_frame : List ℕ → List ℕ → List ℕ
encode_frame payload out =
    let len = length payload % 2 ^ 32 in
    out
    ++ (0
        ∷ (bit_and (len / 2 ^ 16) 0xff % 256)
        ∷ (bit_and (len / 2 ^ 8) 0xff % 256)
        ∷ (bit_and len 0xff % 256)
        ∷ payload)

unfoldable pub decode_frame_header : ℕ → ℕ → ℕ → ℕ → ProtoResult ℕ
decode_frame_header b0 b1 b2 b3 =
    if b0 == 0 then ok (bit_or (bit_or (b1 * 2 ^ 16) (b2 * 2 ^ 8)) b3) else err malformed
