-- ===== src/Dispatch/Flags.antt =====
-- What the masks of dispatch.rs do to the flags of a header.
use rust_smb_server.Prelude.{ℕ, ◌/◌, ◌%◌, ◌^◌, ◌<◌, ◌≡◌, Bool, true, false, bit_or, arith}
use rust_smb_server.Prelude.Bits.{
  bit_and_halves, bit_or_halves, bit_and-one, bit_and-two, bit_and-eight, bit_or-lt, bit_and-lt,
}
use rust_smb_server.Proto.Header.{flags_server_to_redir, flags_async_command, flags_signed}
use rust_smb_server.Dispatch.{clear, has_flag}

-- The flags of a response, once the async flag is cleared, and once it is said to be signed or not.
abbrev pub unsigned_flags : ℕ → ℕ
unsigned_flags x = clear flags_async_command (bit_or x flags_server_to_redir)

abbrev pub final_flags : Bool → ℕ → ℕ
final_flags true x = bit_or (unsigned_flags x) flags_signed
final_flags false x = clear flags_signed (unsigned_flags x)

unsigned_flags-lt : (x : ℕ) → x < 2 ^ 32 → unsigned_flags x < 2 ^ 32
unsigned_flags-lt x h = bit_and-lt 32 (bit_or x 1) 4294967293 (bit_or-lt 32 x 1 h (omega arith))

pub final_flags-lt : (signed : Bool) (x : ℕ) → x < 2 ^ 32 → final_flags signed x < 2 ^ 32
final_flags-lt true x h = bit_or-lt 32 (unsigned_flags x) 8 (unsigned_flags-lt x h) (omega arith)
final_flags-lt false x h = bit_and-lt 32 (unsigned_flags x) 4294967287 (unsigned_flags-lt x h)

-- The lowest digits of the flags before the signature.
low : (x : ℕ) → unsigned_flags x % 4 ≡ 1
low x = omega (
  arith,
  bit_and_halves (bit_or x 1) 4294967293,
  bit_and_halves (bit_or x 1 / 2) 2147483646,
  bit_or_halves x 1,
)

final_low : (signed : Bool) (x : ℕ) → final_flags signed x % 4 ≡ 1
final_low true x =
    omega (arith, low x, bit_or_halves (unsigned_flags x) 8, bit_or_halves (unsigned_flags x / 2) 4)
final_low false x = omega (
  arith,
  low x,
  bit_and_halves (unsigned_flags x) 4294967287,
  bit_and_halves (unsigned_flags x / 2) 2147483643,
)

pub final_flags-response :
    (signed : Bool) (x : ℕ) → has_flag flags_server_to_redir (final_flags signed x) ≡ true
final_flags-response signed x =
    ground (arith, bit_and-one (final_flags signed x), final_low signed x)

pub final_flags-async :
    (signed : Bool) (x : ℕ) → has_flag flags_async_command (final_flags signed x) ≡ false
final_flags-async signed x = ground (arith, bit_and-two (final_flags signed x), final_low signed x)

pub final_flags-signed :
    (signed : Bool) (x : ℕ) → has_flag flags_signed (final_flags signed x) ≡ signed
final_flags-signed true x = ground (
  arith,
  bit_and-eight (final_flags true x),
  bit_or_halves (unsigned_flags x) 8,
  bit_or_halves (unsigned_flags x / 2) 4,
  bit_or_halves (unsigned_flags x / 2 / 2) 2,
  bit_or_halves (unsigned_flags x / 2 / 2 / 2) 1,
)
final_flags-signed false x = ground (
  arith,
  bit_and-eight (final_flags false x),
  bit_and_halves (unsigned_flags x) 4294967287,
  bit_and_halves (unsigned_flags x / 2) 2147483643,
  bit_and_halves (unsigned_flags x / 2 / 2) 1073741821,
  bit_and_halves (unsigned_flags x / 2 / 2 / 2) 536870910,
)
