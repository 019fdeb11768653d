-- ===== src/Proto/Sign.antt =====
-- proto/crypto/sign.rs: the signature in bytes 48 to 64 of a message. The MACs of the hmac, sha2,
-- cmac and aes crates are parameters.
pub mod Laws
use rust_smb_server.Prelude.{
  ℕ, ◌+◌, ◌≤◌, ◌==◌, ltb, if◌then◌else◌, ◌≡◌, Bool, List, [], ◌∷◌, ◌++◌, length, take, drop,
  replicate, bit_or, bit_xor,
}
use rust_smb_server.Prelude.Bytes.{IsBytes, slice, splice}
use rust_smb_server.Proto.Error.{ProtoResult, ok, err, crypto}
use rust_smb_server.Proto.Dialect.{SigningAlgo, hmac_sha256, aes_cmac}

-- A MAC of a key and a message. `finalize` gives 32 bytes of HMAC-SHA-256, and 16 of AES-CMAC.
pub record Macs : Type 0 where
  pub hmac : List ℕ → List ℕ → List ℕ
  pub cmac : List ℕ → List ℕ → List ℕ
  pub hmac_length : (key msg : List ℕ) → length (hmac key msg) ≡ 32
  pub cmac_length : (key msg : List ℕ) → length (cmac key msg) ≡ 16

abbrev pub sig_off : ℕ
sig_off = 48

abbrev pub sig_len : ℕ
sig_len = 16

abbrev pub signed_header_len : ℕ
signed_header_len = 64

-- The loop of `constant_time_eq`: `diff |= a[i] ^ b[i]`.
unfoldable pub difference : ℕ → List ℕ → List ℕ → ℕ
difference diff (x ∷ a) (y ∷ b) = difference (bit_or diff (bit_xor x y)) a b
difference diff _ _ = diff

unfoldable pub constant_time_eq : List ℕ → List ℕ → Bool
unfolding difference
constant_time_eq a b = difference 0 a b == 0

module _ ⦃m : Macs⦄ where
  unfoldable pub mac_of : SigningAlgo → List ℕ → List ℕ → List ℕ
  mac_of hmac_sha256 key msg = m.hmac key msg
  mac_of aes_cmac key msg = m.cmac key msg

  unfoldable pub compute_mac_zeroed_signature : List ℕ → List ℕ → SigningAlgo → List ℕ
  compute_mac_zeroed_signature msg key algo =
      take sig_len (
        mac_of algo key (take sig_off msg ++ (replicate sig_len 0 ++ drop (sig_off + sig_len) msg)))

  -- The message, with the signature in place.
  unfoldable pub sign : List ℕ → List ℕ → SigningAlgo → ProtoResult (List ℕ)
  sign msg key algo =
      if ltb (length msg) signed_header_len
      then err crypto
      else ok (splice msg sig_off (compute_mac_zeroed_signature msg key algo))

  unfoldable pub verify : List ℕ → List ℕ → SigningAlgo → ProtoResult (Unit {0})
  verify msg key algo =
      if ltb (length msg) signed_header_len
      then err crypto
      else (if constant_time_eq (slice msg sig_off sig_len)
            (compute_mac_zeroed_signature msg key algo)
          then ok tt
          else err crypto)
