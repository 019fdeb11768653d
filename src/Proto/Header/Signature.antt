-- ===== src/Proto/Header/Signature.antt =====
-- Fields of the header where they stand in its bytes: what is read there, and what it is to write one.
use rust_smb_server.Prelude.{
  ℕ, ◌+◌, ◌^◌, ◌<◌, ◌≡◌, refl, sym, ap, ◌∙◌, List, ◌++◌, length, arith, length-append, append_assoc,
  take-append, drop-append,
}
use rust_smb_server.Prelude.Bytes.{
  slice, splice, slice-middle, splice-field, le_bytes, from_le_bytes, length-le_bytes,
  from_le_bytes-le_bytes,
}
use rust_smb_server.Proto.Wire.{Binrw, length-write}
use rust_smb_server.Proto.Header.{Smb2Header, write, tail_bytes, smb2_magic}
use rust_smb_server.Proto.Header.Opcode.{as_u16}
use rust_smb_server.Proto.Header.Raw.{raw_write}
use rust_smb_server.Proto.Header.RoundTrip.{FitsHeader, length-write_header}

splice-middle :
    (front old sig body : List ℕ)
    → length front ≡ 48
    → length old ≡ 16
    → length sig ≡ 16
    → splice ((front ++ old) ++ body) 48 sig ≡ (front ++ sig) ++ body
unfolding splice
splice-middle front old sig body f o l =
    rw
      (
        l,
        drop-append (front ++ old) body 64 (omega (arith, length-append front old)),
        append_assoc front old body,
        take-append front (old ++ body) 48 f,
        append_assoc front sig body,
      )
      refl

module _ ⦃b : Binrw⦄ where
  -- The bytes in front of the signature.
  front_bytes : Smb2Header → List ℕ
  front_bytes h =
      smb2_magic
      ++ (b.write 2 64
          ++ (b.write 2 h.credit_charge
              ++ (b.write 4 h.channel_sequence_status
                  ++ (b.write 2 (as_u16 h.command)
                      ++ (b.write 2 h.credit_request_response
                          ++ (b.write 4 h.flags
                              ++ (b.write 4 h.next_command
                                  ++ (b.write 8 h.message_id
                                      ++ (tail_bytes h.tail ++ b.write 8 h.session_id)))))))))

  write-front_bytes : (h : Smb2Header) → write h ≡ front_bytes h ++ h.signature
  unfolding front_bytes write raw_write
  write-front_bytes h = simp append_assoc refl

  length-front_bytes : (h : Smb2Header) → FitsHeader h → length (front_bytes h) ≡ 48
  length-front_bytes h f =
      let whole : length (front_bytes h ++ h.signature) ≡ 64 =
        rw write-front_bytes at (length-write_header h f) in
      omega (arith, length-append (front_bytes h) h.signature, f.signature)

  pub splice-write :
      (h : Smb2Header) (body sig : List ℕ)
      → FitsHeader h
      → length sig ≡ 16
      → splice (write h ++ body) 48 sig ≡ write (record h { signature = sig }) ++ body
  unfolding front_bytes
  splice-write h body sig f l =
      let before : write h ≡ front_bytes h ++ h.signature = write-front_bytes h in
      let after : write (record h { signature = sig }) ≡ front_bytes h ++ sig =
        write-front_bytes (record h { signature = sig }) in
      ap (λ bytes. splice (bytes ++ body) 48 sig) before
      ∙ splice-middle (front_bytes h) h.signature sig body (length-front_bytes h f) f.signature l
      ∙ ap (λ bytes. bytes ++ body) (sym after)

module _ ⦃b : Binrw⦄ where
  front_of_flags : Smb2Header → List ℕ
  front_of_flags h =
      smb2_magic
      ++ (b.write 2 64
          ++ (b.write 2 h.credit_charge
              ++ (b.write 4 h.channel_sequence_status
                  ++ (b.write 2 (as_u16 h.command) ++ b.write 2 h.credit_request_response))))

  length-front_of_flags : (h : Smb2Header) → length (front_of_flags h) ≡ 16
  unfolding front_of_flags
  length-front_of_flags h = simp (length-append, length-write) refl

  -- Behind the flags and the offset of the next command.
  behind_next : Smb2Header → List ℕ → List ℕ
  behind_next h body =
      b.write 8 h.message_id
      ++ (tail_bytes h.tail ++ (b.write 8 h.session_id ++ (h.signature ++ body)))

  write-flags :
      (h : Smb2Header) (body : List ℕ)
      → write h ++ body
        ≡ front_of_flags h
          ++ (b.write 4 h.flags ++ (b.write 4 h.next_command ++ behind_next h body))
  unfolding front_of_flags behind_next write raw_write
  write-flags h body = simp append_assoc refl

  pub slice-flags :
      (h : Smb2Header) (body : List ℕ)
      → h.flags < 256 ^ 4
      → from_le_bytes (slice (write h ++ body) 16 4) ≡ h.flags
  slice-flags h body f =
      rw
        (
          write-flags h body,
          slice-middle (front_of_flags h) (b.write 4 h.flags)
              (b.write 4 h.next_command ++ behind_next h body) 16 4 (length-front_of_flags h)
              (length-write 4 h.flags),
          b.write_little 4 h.flags,
        )
        (from_le_bytes-le_bytes 4 h.flags f)

  pub splice-next_command :
      (h : Smb2Header) (body : List ℕ) (n : ℕ)
      → splice (write h ++ body) 20 (le_bytes 4 n) ≡ write (record h { next_command = n }) ++ body
  unfolding front_of_flags behind_next
  splice-next_command h body n =
      let front : List ℕ = front_of_flags h ++ b.write 4 h.flags in
      let before : write h ++ body ≡ front ++ (b.write 4 h.next_command ++ behind_next h body) =
        write-flags h body
        ∙ sym (
            append_assoc (front_of_flags h) (b.write 4 h.flags)
              (b.write 4 h.next_command ++ behind_next h body)) in
      let after : write (record h { next_command = n }) ++ body
          ≡ front ++ (le_bytes 4 n ++ behind_next h body) =
        write-flags (record h { next_command = n }) body
        ∙ sym (
            append_assoc (front_of_flags h) (b.write 4 h.flags) (b.write 4 n ++ behind_next h body))
        ∙ ap (λ field. front ++ (field ++ behind_next h body)) (b.write_little 4 n) in
      ap (λ bytes. splice bytes 20 (le_bytes 4 n)) before
      ∙ splice-field front (b.write 4 h.next_command) (le_bytes 4 n) (behind_next h body) 20
          (omega (
            arith,
            length-append (front_of_flags h) (b.write 4 h.flags),
            length-front_of_flags h,
            length-write 4 h.flags,
          ))
          (length-write 4 h.next_command ∙ sym (length-le_bytes 4 n))
      ∙ sym after

  front_of_session : Smb2Header → List ℕ
  front_of_session h =
      front_of_flags h
      ++ (b.write 4 h.flags
          ++ (b.write 4 h.next_command ++ (b.write 8 h.message_id ++ tail_bytes h.tail)))

  pub slice-session_id :
      (h : Smb2Header) (body : List ℕ)
      → FitsHeader h
      → from_le_bytes (slice (write h ++ body) 40 8) ≡ h.session_id
  unfolding front_of_session behind_next
  slice-session_id h body f =
      let before : write h ++ body
          ≡ front_of_session h ++ (b.write 8 h.session_id ++ (h.signature ++ body)) =
        write-flags h body ∙ simp append_assoc refl in
      let whole : length (front_of_session h ++ (b.write 8 h.session_id ++ (h.signature ++ body)))
          ≡ 64 + length body =
        sym (ap length before)
        ∙ length-append (write h) body
        ∙ ap (λ n. n + length body) (length-write_header h f) in
      let front : length (front_of_session h) ≡ 40 = omega (
        arith,
        f.signature,
        length-append (front_of_session h) (b.write 8 h.session_id ++ (h.signature ++ body)),
        length-append (b.write 8 h.session_id) (h.signature ++ body),
        length-append h.signature body,
        length-write 8 h.session_id,
      ) in
      rw
        (
          before,
          slice-middle (front_of_session h) (b.write 8 h.session_id) (h.signature ++ body) 40 8
              front (length-write 8 h.session_id),
          b.write_little 8 h.session_id,
        )
        (from_le_bytes-le_bytes 8 h.session_id f.session_id)
