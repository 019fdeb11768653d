-- ===== src/Prelude/Bytes.antt =====
-- Byte strings: `to_le_bytes` and `from_le_bytes` of the unsigned integers, for every width.
use Prim.Native.Nat.{ℕ, zero, suc, ◌+◌, ◌*◌, ◌/◌, ◌%◌, ◌^◌, ◌<◌, ◌≤◌}
use mathlib.Core.Path.{◌≡◌, refl, ap, sym}
use mathlib.Core.List.{List, [], ◌∷◌, ◌++◌, append_assoc}
use native.Mathlib.Nat.{pow-suc}
use native.Mathlib.Omega.{arith}
use rust_smb_server.Prelude.Lists.{
  length, All, take, drop, length-append, length-take, take-append, drop-append,
}

abbrev pub IsByte : ℕ → Type 0
IsByte b = b < 256

abbrev pub IsBytes : List ℕ → Type 0
IsBytes = All IsByte

-- `v.to_le_bytes()` of an unsigned integer of `w` bytes.
unfoldable pub le_bytes : ℕ → ℕ → List ℕ
le_bytes zero v = []
le_bytes (suc w) v = (v % 256) ∷ le_bytes w (v / 256)

-- `from_le_bytes` of any number of bytes.
unfoldable pub from_le_bytes : List ℕ → ℕ
from_le_bytes [] = 0
from_le_bytes (b ∷ bs) = b + 256 * from_le_bytes bs

pub length-le_bytes : (w v : ℕ) → length (le_bytes w v) ≡ w
unfolding le_bytes
length-le_bytes zero v = refl
length-le_bytes (suc w) v = ap suc (length-le_bytes w (v / 256))

pub le_bytes-IsBytes : (w v : ℕ) → IsBytes (le_bytes w v)
unfolding le_bytes
le_bytes-IsBytes zero v = tt
le_bytes-IsBytes (suc w) v = (omega arith, le_bytes-IsBytes w (v / 256))

pub from_le_bytes-le_bytes : (w v : ℕ) → v < 256 ^ w → from_le_bytes (le_bytes w v) ≡ v
unfolding le_bytes from_le_bytes
from_le_bytes-le_bytes zero v h = omega arith
from_le_bytes-le_bytes (suc w) v h =
    omega (arith, pow-suc 256 w, from_le_bytes-le_bytes w (v / 256) (omega (arith, pow-suc 256 w)))

pub from_le_bytes-lt : (bs : List ℕ) → IsBytes bs → from_le_bytes bs < 256 ^ length bs
unfolding from_le_bytes
from_le_bytes-lt [] h = omega arith
from_le_bytes-lt (b ∷ bs) h = omega (arith, pow-suc 256 (length bs), from_le_bytes-lt bs h.1, h.0)

pub le_bytes-from_le_bytes :
    (bs : List ℕ) → IsBytes bs → le_bytes (length bs) (from_le_bytes bs) ≡ bs
unfolding le_bytes from_le_bytes
le_bytes-from_le_bytes [] h = refl
le_bytes-from_le_bytes (b ∷ bs) h =
    let low : (b + 256 * from_le_bytes bs) % 256 ≡ b = omega (arith, h.0) in
    let high : (b + 256 * from_le_bytes bs) / 256 ≡ from_le_bytes bs = omega (arith, h.0) in
    rw (low, high, le_bytes-from_le_bytes bs h.1)

-- `&buf[offset..offset + n]`
abbrev pub slice : List ℕ → ℕ → ℕ → List ℕ
slice buf offset n = take n (drop offset buf)

-- `buf[offset..offset + bytes.len()].copy_from_slice(&bytes)`, for a range inside `buf`.
unfoldable pub splice : List ℕ → ℕ → List ℕ → List ℕ
splice buf offset bytes = take offset buf ++ (bytes ++ drop (offset + length bytes) buf)

-- What a splice at `n` leaves: the front, the piece and the rest.
module _ (buf piece : List ℕ) (n : ℕ) (fits : n ≤ length buf) where
  front : length (take n buf) ≡ n
  front = length-take n buf fits

  pub splice-front : take n (splice buf n piece) ≡ take n buf
  unfolding splice
  splice-front = take-append (take n buf) (piece ++ drop (n + length piece) buf) n front

  pub drop-splice : drop n (splice buf n piece) ≡ piece ++ drop (n + length piece) buf
  unfolding splice
  drop-splice = drop-append (take n buf) (piece ++ drop (n + length piece) buf) n front

  pub splice-piece : slice (splice buf n piece) n (length piece) ≡ piece
  splice-piece =
      rw drop-splice (take-append piece (drop (n + length piece) buf) (length piece) refl)

  pub splice-rest : drop (n + length piece) (splice buf n piece) ≡ drop (n + length piece) buf
  unfolding splice
  splice-rest = rw (sym (append_assoc (take n buf) piece (drop (n + length piece) buf))) (
      drop-append (take n buf ++ piece) (drop (n + length piece) buf) (n + length piece)
        (omega (arith, front, length-append (take n buf) piece)))

-- A field in the middle of some bytes.
pub slice-middle :
    (front field rest : List ℕ) (n k : ℕ)
    → length front ≡ n
    → length field ≡ k
    → slice (front ++ (field ++ rest)) n k ≡ field
slice-middle front field rest n k f l =
    rw (drop-append front (field ++ rest) n f) (take-append field rest k l)

pub splice-field :
    (front old new rest : List ℕ) (n : ℕ)
    → length front ≡ n
    → length old ≡ length new
    → splice (front ++ (old ++ rest)) n new ≡ front ++ (new ++ rest)
unfolding splice
splice-field front old new rest n f l =
    rw
      (
        take-append front (old ++ rest) n f,
        sym (append_assoc front old rest),
        drop-append (front ++ old) rest (n + length new) (omega (arith, length-append front old)),
      )
      refl
