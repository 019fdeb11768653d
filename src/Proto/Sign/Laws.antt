-- ===== src/Proto/Sign/Laws.antt =====
-- A message that is signed verifies, and a message that verifies is what signing makes of it.
use rust_smb_server.Prelude.{
  ℕ, ◌+◌, ◌≤◌, ==_iff, ltb, not_ltb, ◌≡◌, ◌↔◌, refl, sym, ap, ◌∙◌, true, Bool-cases, inl, inr, List,
  [], ◌∷◌, ◌++◌, length, take, drop, replicate, bit_or, bit_xor, arith, length-append, length-take,
  length-drop, take-append-drop, drop-drop,
}
use rust_smb_server.Prelude.Bits.{bit_xor-same, bit_xor-zero, bit_or-zero, bit_or_is_zero}
use rust_smb_server.Prelude.Bytes.{slice, splice, splice-front, splice-rest, splice-piece}
use rust_smb_server.Proto.Error.{ok, err, crypto, ok-injective}
use rust_smb_server.Proto.Dialect.{SigningAlgo, hmac_sha256, aes_cmac}
use rust_smb_server.Proto.Sign.{
  Macs, signed_header_len, difference, constant_time_eq, mac_of, compute_mac_zeroed_signature, sign,
  verify,
}

difference-same : (a : List ℕ) → difference 0 a a ≡ 0
unfolding difference
difference-same [] = refl
difference-same (x ∷ a) = rw (bit_xor-same x, bit_or-zero 0) (difference-same a)

-- The difference of two strings of one length is 0 only where they are equal, and started at 0.
difference-zero :
    (diff : ℕ) (a b : List ℕ) → length a ≡ length b → difference diff a b ≡ 0 → (diff ≡ 0) × (a ≡ b)
unfolding difference
difference-zero diff [] [] l h = (h, refl)
difference-zero diff [] (y ∷ b) l h = absurd (omega arith)
difference-zero diff (x ∷ a) [] l h = absurd (omega arith)
difference-zero diff (x ∷ a) (y ∷ b) l h =
    let (d, ab) = difference-zero (bit_or diff (bit_xor x y)) a b (omega arith) h in
    let (e, xy) = bit_or_is_zero diff (bit_xor x y) d in (e, rw (bit_xor-zero x y xy, ab) refl)

pub constant_time_eq_iff :
    (a b : List ℕ) → length a ≡ length b → (constant_time_eq a b ≡ true) ↔ (a ≡ b)
unfolding constant_time_eq
constant_time_eq_iff a b l = (
  (λ h. (difference-zero 0 a b l ((==_iff (difference 0 a b) 0).0 h)).1),
  (λ e. rw (e, difference-same b) refl),
)

module _ ⦃m : Macs⦄ where
  pub length-mac :
      (msg key : List ℕ) (algo : SigningAlgo)
      → length (compute_mac_zeroed_signature msg key algo) ≡ 16
  unfolding compute_mac_zeroed_signature mac_of
  length-mac msg key hmac_sha256 =
      length-take 16 _
        (omega (arith, m.hmac_length key (take 48 msg ++ (replicate 16 0 ++ drop 64 msg))))
  length-mac msg key aes_cmac =
      length-take 16 _
        (omega (arith, m.cmac_length key (take 48 msg ++ (replicate 16 0 ++ drop 64 msg))))

  -- The signature does not depend on the bytes where it is put.
  mac-splice :
      (msg sig key : List ℕ) (algo : SigningAlgo)
      → 64 ≤ length msg
      → length sig ≡ 16
      → compute_mac_zeroed_signature (splice msg 48 sig) key algo
        ≡ compute_mac_zeroed_signature msg key algo
  unfolding compute_mac_zeroed_signature
  mac-splice msg sig key algo long l =
      rw (splice-front msg sig 48 (omega arith), rw l at (splice-rest msg sig 48 (omega arith)))
        refl

  length-splice :
      (msg sig : List ℕ)
      → 64 ≤ length msg
      → length sig ≡ 16
      → length (splice msg 48 sig) ≡ length msg
  unfolding splice
  length-splice msg sig long l = omega (
    arith,
    length-append (take 48 msg) (sig ++ drop (48 + length sig) msg),
    length-append sig (drop (48 + length sig) msg),
    length-take 48 msg (omega arith),
    length-drop (48 + length sig) msg,
    l,
  )

  -- To put the bytes back that stand there changes nothing.
  splice-slice : (msg : List ℕ) → 64 ≤ length msg → splice msg 48 (slice msg 48 16) ≡ msg
  unfolding splice
  splice-slice msg long =
      rw
        (
          length-take 16 (drop 48 msg) (omega (arith, length-drop 48 msg)),
          sym (drop-drop 16 48 64 msg refl),
          take-append-drop 16 (drop 48 msg),
        )
        (take-append-drop 48 msg)

  pub sign-long :
      (msg key : List ℕ) (algo : SigningAlgo)
      → 64 ≤ length msg
      → sign msg key algo ≡ ok (splice msg 48 (compute_mac_zeroed_signature msg key algo))
  unfolding sign
  sign-long msg key algo long = rw (not_ltb (length msg) 64 long) refl

  sign-inv :
      (msg signed key : List ℕ) (algo : SigningAlgo)
      → sign msg key algo ≡ ok signed
      → (64 ≤ length msg) × (splice msg 48 (compute_mac_zeroed_signature msg key algo) ≡ signed)
  unfolding sign
  sign-inv msg signed key algo h = elim (Bool-cases (ltb (length msg) signed_header_len)) [
    | inl short ↦ let no : err crypto ≡ ok signed = rw short at h in cc no
    | inr long ↦ (ground arith, ok-injective (rw long at h))
  ]

  length-embedded : (msg : List ℕ) → 64 ≤ length msg → length (slice msg 48 16) ≡ 16
  length-embedded msg long = length-take 16 (drop 48 msg) (omega (arith, length-drop 48 msg))

  verify-long :
      (msg key : List ℕ) (algo : SigningAlgo)
      → 64 ≤ length msg
      → slice msg 48 16 ≡ compute_mac_zeroed_signature msg key algo
      → verify msg key algo ≡ ok tt
  unfolding verify
  verify-long msg key algo long same =
      rw
        (
          not_ltb (length msg) 64 long,
          (constant_time_eq_iff (slice msg 48 16) (compute_mac_zeroed_signature msg key algo)
                (length-embedded msg long ∙ sym (length-mac msg key algo))).1
              same,
        )
        refl

  verify-inv :
      (msg key : List ℕ) (algo : SigningAlgo)
      → verify msg key algo ≡ ok tt
      → (64 ≤ length msg) × (slice msg 48 16 ≡ compute_mac_zeroed_signature msg key algo)
  unfolding verify
  verify-inv msg key algo h = elim (Bool-cases (ltb (length msg) signed_header_len)) [
    | inl short ↦ let no : err crypto ≡ ok tt = rw short at h in cc no
    | inr long ↦
        elim (Bool-cases
          (constant_time_eq (slice msg 48 16) (compute_mac_zeroed_signature msg key algo))) [
            | inl same ↦
                let enough : 64 ≤ length msg = ground arith in
                (
                  enough,
                  (constant_time_eq_iff (slice msg 48 16)
                        (compute_mac_zeroed_signature msg key algo)
                        (length-embedded msg enough ∙ sym (length-mac msg key algo))).0
                      same,
                )
            | inr differs ↦ let no : err crypto ≡ ok tt = rw (long, differs) at h in cc no
          ]
  ]

  pub verify-sign :
      (msg signed key : List ℕ) (algo : SigningAlgo)
      → sign msg key algo ≡ ok signed
      → verify signed key algo ≡ ok tt
  verify-sign msg signed key algo h =
      let mac : List ℕ = compute_mac_zeroed_signature msg key algo in
      let (long, same) = sign-inv msg signed key algo h in
      let l : length mac ≡ 16 = length-mac msg key algo in
      rw (← same) (
        verify-long (splice msg 48 mac) key algo (omega (arith, length-splice msg mac long l)) (
          rw l at (splice-piece msg mac 48 (omega arith))
          ∙ sym (mac-splice msg mac key algo long l)))

  -- A message verifies under a key exactly where signing it with that key gives the same
  -- message; so a message shorter than a header never verifies.
  pub verify-iff-sign :
      (msg key : List ℕ) (algo : SigningAlgo)
      → (verify msg key algo ≡ ok tt) ↔ (sign msg key algo ≡ ok msg)
  verify-iff-sign msg key algo = (
    (λ h.
        let (long, same) = verify-inv msg key algo h in
        sign-long msg key algo long ∙ ap ok (rw same at (splice-slice msg long))),
    (λ h. verify-sign msg msg key algo h),
  )
