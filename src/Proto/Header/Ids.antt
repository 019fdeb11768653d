-- ===== src/Proto/Header/Ids.antt =====
-- The status, the tree and the session of a header where they stand in its bytes.
use rust_smb_server.Prelude.{
  [], append-nil, take, drop, drop-drop, drop-append, ℕ, ◌+◌, ◌^◌, ◌<◌, ◌≡◌, refl, sym, ap, ◌∙◌,
  List, ◌++◌, length, arith, length-append, append_assoc,
}
use rust_smb_server.Prelude.Bytes.{
  slice, splice, slice-middle, splice-field, le_bytes, from_le_bytes, length-le_bytes,
  from_le_bytes-le_bytes,
}
use rust_smb_server.Proto.Wire.{Binrw, length-write}
use rust_smb_server.Proto.Header.{Smb2Header, HeaderTail, sync_tail, write, tail_bytes, smb2_magic}
use rust_smb_server.Proto.Header.Opcode.{as_u16}
use rust_smb_server.Proto.Header.Raw.{raw_write}
use rust_smb_server.Proto.Header.RoundTrip.{length-tail_bytes}

module _ ⦃b : Binrw⦄ where
  front_of_status : Smb2Header → List ℕ
  front_of_status h = smb2_magic ++ (b.write 2 64 ++ b.write 2 h.credit_charge)

  -- Between the status and the reserved field.
  between : Smb2Header → List ℕ
  between h =
      b.write 2 (as_u16 h.command)
      ++ (b.write 2 h.credit_request_response
          ++ (b.write 4 h.flags ++ (b.write 4 h.next_command ++ b.write 8 h.message_id)))

  front_of_tail : Smb2Header → List ℕ
  front_of_tail h = front_of_status h ++ (b.write 4 h.channel_sequence_status ++ between h)

  length-front_of_status : (h : Smb2Header) → length (front_of_status h) ≡ 8
  unfolding front_of_status
  length-front_of_status h = simp (length-append, length-write) refl

  length-front_of_tail : (h : Smb2Header) → length (front_of_tail h) ≡ 32
  unfolding front_of_tail front_of_status between
  length-front_of_tail h = simp (length-append, length-write) refl

  write-tail :
      (h : Smb2Header) (body : List ℕ)
      → write h ++ body
        ≡ front_of_tail h
          ++ (tail_bytes h.tail ++ (b.write 8 h.session_id ++ (h.signature ++ body)))
  unfolding front_of_tail front_of_status between write raw_write
  write-tail h body = simp append_assoc refl

  -- The length of a header does not depend on its numbers.
  pub length-write_frame :
      (h : Smb2Header) (body : List ℕ)
      → length h.signature ≡ 16
      → length (write h ++ body) ≡ 64 + length body
  length-write_frame h body sig =
      ap length (write-tail h body)
      ∙ omega (
        arith,
        sig,
        length-append (front_of_tail h)
            (tail_bytes h.tail ++ (b.write 8 h.session_id ++ (h.signature ++ body))),
        length-front_of_tail h,
        length-append (tail_bytes h.tail) (b.write 8 h.session_id ++ (h.signature ++ body)),
        length-tail_bytes h.tail,
        length-append (b.write 8 h.session_id) (h.signature ++ body),
        length-write 8 h.session_id,
        length-append h.signature body,
      )

  pub slice-status :
      (h : Smb2Header) (body : List ℕ)
      → h.channel_sequence_status < 256 ^ 4
      → from_le_bytes (slice (write h ++ body) 8 4) ≡ h.channel_sequence_status
  unfolding front_of_tail
  slice-status h body f =
      let rest : List ℕ =
        between h ++ (tail_bytes h.tail ++ (b.write 8 h.session_id ++ (h.signature ++ body))) in
      let before : write h ++ body
          ≡ front_of_status h ++ (b.write 4 h.channel_sequence_status ++ rest) =
        write-tail h body ∙ simp append_assoc refl in
      rw
        (
          before,
          slice-middle (front_of_status h) (b.write 4 h.channel_sequence_status) rest 8 4
              (length-front_of_status h) (length-write 4 h.channel_sequence_status),
          b.write_little 4 h.channel_sequence_status,
        )
        (from_le_bytes-le_bytes 4 h.channel_sequence_status f)

  length-front_of_session : (h : Smb2Header) → length (front_of_tail h ++ tail_bytes h.tail) ≡ 40
  length-front_of_session h = omega (
    arith,
    length-append (front_of_tail h) (tail_bytes h.tail),
    length-front_of_tail h,
    length-tail_bytes h.tail,
  )

  write-session :
      (h : Smb2Header) (body : List ℕ)
      → write h ++ body
        ≡ (front_of_tail h ++ tail_bytes h.tail)
          ++ (b.write 8 h.session_id ++ (h.signature ++ body))
  write-session h body =
      write-tail h body
      ∙ sym (
          append_assoc (front_of_tail h) (tail_bytes h.tail)
            (b.write 8 h.session_id ++ (h.signature ++ body)))

  pub slice-session :
      (h : Smb2Header) (body : List ℕ)
      → h.session_id < 256 ^ 8
      → from_le_bytes (slice (write h ++ body) 40 8) ≡ h.session_id
  slice-session h body f =
      rw
        (
          write-session h body,
          slice-middle (front_of_tail h ++ tail_bytes h.tail) (b.write 8 h.session_id)
              (h.signature ++ body) 40 8 (length-front_of_session h) (length-write 8 h.session_id),
          b.write_little 8 h.session_id,
        )
        (from_le_bytes-le_bytes 8 h.session_id f)

  pub splice-session :
      (h : Smb2Header) (body : List ℕ) (n : ℕ)
      → splice (write h ++ body) 40 (le_bytes 8 n) ≡ write (record h { session_id = n }) ++ body
  unfolding front_of_tail front_of_status between
  splice-session h body n =
      let after : write (record h { session_id = n }) ++ body
          ≡ (front_of_tail h ++ tail_bytes h.tail) ++ (le_bytes 8 n ++ (h.signature ++ body)) =
        write-session (record h { session_id = n }) body
        ∙ ap (λ field. (front_of_tail h ++ tail_bytes h.tail) ++ (field ++ (h.signature ++ body)))
            (b.write_little 8 n) in
      ap (λ bytes. splice bytes 40 (le_bytes 8 n)) (write-session h body)
      ∙ splice-field (front_of_tail h ++ tail_bytes h.tail) (b.write 8 h.session_id) (le_bytes 8 n)
          (h.signature ++ body) 40 (length-front_of_session h)
          (length-write 8 h.session_id ∙ sym (length-le_bytes 8 n))
      ∙ sym after

  -- What follows the tree.
  behind_tree : Smb2Header → List ℕ → List ℕ
  behind_tree h body = b.write 8 h.session_id ++ (h.signature ++ body)

  length-front_of_tree :
      (h : Smb2Header) (reserved : ℕ) → length (front_of_tail h ++ le_bytes 4 reserved) ≡ 36
  length-front_of_tree h reserved = omega (
    arith,
    length-append (front_of_tail h) (le_bytes 4 reserved),
    length-front_of_tail h,
    length-le_bytes 4 reserved,
  )

  write-tree :
      (h : Smb2Header) (body : List ℕ) (reserved tree_id : ℕ)
      → h.tail ≡ sync_tail reserved tree_id
      → write h ++ body
        ≡ (front_of_tail h ++ le_bytes 4 reserved) ++ (le_bytes 4 tree_id ++ behind_tree h body)
  unfolding tail_bytes behind_tree
  write-tree h body reserved tree_id e =
      write-tail h body
      ∙ ap (λ (t : HeaderTail). front_of_tail h ++ (tail_bytes t ++ behind_tree h body)) e
      ∙ ap (λ bytes. front_of_tail h ++ bytes)
          (append_assoc (le_bytes 4 reserved) (le_bytes 4 tree_id) (behind_tree h body))
      ∙ sym (
          append_assoc (front_of_tail h) (le_bytes 4 reserved)
            (le_bytes 4 tree_id ++ behind_tree h body))

  pub slice-tree :
      (h : Smb2Header) (body : List ℕ) (reserved tree_id : ℕ)
      → h.tail ≡ sync_tail reserved tree_id
      → tree_id < 256 ^ 4
      → from_le_bytes (slice (write h ++ body) 36 4) ≡ tree_id
  slice-tree h body reserved tree_id e f =
      rw
        (
          write-tree h body reserved tree_id e,
          slice-middle (front_of_tail h ++ le_bytes 4 reserved) (le_bytes 4 tree_id)
              (behind_tree h body) 36 4 (length-front_of_tree h reserved)
              (length-le_bytes 4 tree_id),
        )
        (from_le_bytes-le_bytes 4 tree_id f)

  pub splice-tree :
      (h : Smb2Header) (body : List ℕ) (reserved tree_id n : ℕ)
      → h.tail ≡ sync_tail reserved tree_id
      → splice (write h ++ body) 36 (le_bytes 4 n)
        ≡ write (record h { tail = sync_tail reserved n }) ++ body
  unfolding front_of_tail front_of_status between behind_tree
  splice-tree h body reserved tree_id n e =
      ap (λ bytes. splice bytes 36 (le_bytes 4 n)) (write-tree h body reserved tree_id e)
      ∙ splice-field (front_of_tail h ++ le_bytes 4 reserved) (le_bytes 4 tree_id) (le_bytes 4 n)
          (behind_tree h body) 36 (length-front_of_tree h reserved)
          (length-le_bytes 4 tree_id ∙ sym (length-le_bytes 4 n))
      ∙ sym (write-tree (record h { tail = sync_tail reserved n }) body reserved n refl)

  pub length-header : (hdr : Smb2Header) → length hdr.signature ≡ 16 → length (write hdr) ≡ 64
  length-header hdr sig = ap length (sym (append-nil (write hdr))) ∙ length-write_frame hdr [] sig

  -- Behind a header of 64 bytes, the body.
  pub slice-body :
      (hdr : Smb2Header) (body : List ℕ) (n k : ℕ)
      → length hdr.signature ≡ 16
      → slice (write hdr ++ body) (64 + n) k ≡ slice body n k
  slice-body hdr body n k sig = ap (take k) (
      sym (drop-drop n 64 (64 + n) (write hdr ++ body) (omega arith))
      ∙ ap (drop n) (drop-append (write hdr) body 64 (length-header hdr sig)))
