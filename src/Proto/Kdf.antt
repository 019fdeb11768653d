-- ===== src/Proto/Kdf.antt =====
-- proto/crypto/preauth.rs and proto/crypto/kdf.rs: the hash of the messages of a negotiation, and the
-- keys that are derived from it. SHA-512 of the sha2 crate is a parameter, as HMAC-SHA-256 is.
use rust_smb_server.Prelude.{
  ℕ, ◌≡◌, List, [], ◌∷◌, ◌++◌, length, take, replicate, arith, length-take,
}
use rust_smb_server.Prelude.Text.{codes}
use rust_smb_server.Proto.Sign.{Macs}

-- `finalize` gives 64 bytes.
pub record Digest : Type 0 where
  pub sha512 : List ℕ → List ℕ
  pub sha512_length : (bytes : List ℕ) → length (sha512 bytes) ≡ 64

-- `PreauthIntegrity` is its hash.
abbrev pub new_preauth : List ℕ
new_preauth = replicate 64 0

module _ ⦃d : Digest⦄ where
  unfoldable pub preauth_update : List ℕ → List ℕ → List ℕ
  preauth_update hash frame = d.sha512 (hash ++ frame)

  pub length-preauth_update : (hash frame : List ℕ) → length (preauth_update hash frame) ≡ 64
  unfolding preauth_update
  length-preauth_update hash frame = d.sha512_length (hash ++ frame)

module _ ⦃m : Macs⦄ where
  -- The label and the context, each in front of what separates it.
  unfoldable pub smb2_kdf : List ℕ → List ℕ → List ℕ → List ℕ
  smb2_kdf key label context = take 16 (
      m.hmac key
        ((0 ∷ 0 ∷ 0 ∷ 1 ∷ []) ++ (label ++ ((0 ∷ []) ++ (context ++ (0 ∷ 0 ∷ 0 ∷ 0x80 ∷ []))))))

  unfoldable pub signing_key_30 : List ℕ → List ℕ
  signing_key_30 session_key =
      smb2_kdf session_key (codes "SMB2AESCMAC" ++ 0 ∷ []) (codes "SmbSign" ++ 0 ∷ [])

  unfoldable pub signing_key_311 : List ℕ → List ℕ → List ℕ
  signing_key_311 session_key preauth_hash =
      smb2_kdf session_key (codes "SMBSigningKey" ++ 0 ∷ []) preauth_hash

  pub length-smb2_kdf : (key label context : List ℕ) → length (smb2_kdf key label context) ≡ 16
  unfolding smb2_kdf
  length-smb2_kdf key label context = length-take 16 _ (
      omega (
        arith,
        m.hmac_length key
            ((0 ∷ 0 ∷ 0 ∷ 1 ∷ []) ++ (label ++ ((0 ∷ []) ++ (context ++ (0 ∷ 0 ∷ 0 ∷ 0x80 ∷ []))))),
      ))
