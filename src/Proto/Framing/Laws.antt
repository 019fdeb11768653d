-- ===== src/Proto/Framing/Laws.antt =====
-- What encode_frame writes, in plain arithmetic, and that the header is read back.
use rust_smb_server.Prelude.{
  ℕ, ◌+◌, ◌*◌, ◌/◌, ◌%◌, ◌^◌, ◌≤◌, ◌≡◌, List, [], ◌∷◌, ◌++◌, length, arith,
}
use rust_smb_server.Prelude.Bits.{bit_and_low, bit_or_shifted}
use rust_smb_server.Prelude.Bytes.{IsByte}
use rust_smb_server.Proto.Error.{ok}
use rust_smb_server.Proto.Framing.{encode_frame, decode_frame_header, max_frame_payload}

-- The four bytes of a header, most significant first.
abbrev pub header_bytes : ℕ → List ℕ
header_bytes n = 0 ∷ (n / 65536 % 256) ∷ (n / 256 % 256) ∷ (n % 256) ∷ []

pub encode_frame-header_bytes :
    (payload out : List ℕ)
    → length payload ≤ max_frame_payload
    → encode_frame payload out ≡ out ++ (header_bytes (length payload) ++ payload)
unfolding encode_frame
encode_frame-header_bytes payload out h = ground (
  arith,
  bit_and_low 8 (length payload % 2 ^ 32 / 2 ^ 16),
  bit_and_low 8 (length payload % 2 ^ 32 / 2 ^ 8),
  bit_and_low 8 (length payload % 2 ^ 32),
)

-- The header of bytes is a big-endian number of 24 bits.
pub decode_frame_header-bytes :
    (b1 b2 b3 : ℕ)
    → IsByte b1
    → IsByte b2
    → IsByte b3
    → decode_frame_header 0 b1 b2 b3 ≡ ok (b1 * 65536 + b2 * 256 + b3)
unfolding decode_frame_header
decode_frame_header-bytes b1 b2 b3 h1 h2 h3 =
    ground (arith, bit_or_shifted 16 b1 (b2 * 256), bit_or_shifted 8 (b1 * 256 + b2) b3)
