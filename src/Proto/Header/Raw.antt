-- ===== src/Proto/Header/Raw.antt =====
-- `RawHeader` of proto/header.rs, whose codec binrw derives from the order of the fields.
use rust_smb_server.Prelude.{ℕ, ◌≡◌, ◌<◌, ◌^◌, List, ◌++◌, length, arith}
use rust_smb_server.Proto.Error.{ProtoResult, ok, ◌>>=◌}
use rust_smb_server.Proto.Wire.{
  Binrw, read_bytes, read_bytes-append, read_bytes_all, read_bytes_then, read-write, read_then,
}
use rust_smb_server.Prelude.Bytes.{IsBytes}

pub record RawHeader : Type 0 where
  pub protocol_id : List ℕ
  pub structure_size : ℕ
  pub credit_charge : ℕ
  pub channel_sequence_status : ℕ
  pub command_raw : ℕ
  pub credit_request_response : ℕ
  pub flags : ℕ
  pub next_command : ℕ
  pub message_id : ℕ
  pub tail_bytes : List ℕ
  pub session_id : ℕ
  pub signature : List ℕ

module _ ⦃b : Binrw⦄ where
  unfoldable pub raw_read : List ℕ → ProtoResult (RawHeader × List ℕ)
  raw_read buf = do
    (protocol_id, r0) ← read_bytes 4 buf
    (structure_size, r1) ← b.read 2 r0
    (credit_charge, r2) ← b.read 2 r1
    (status, r3) ← b.read 4 r2
    (command_raw, r4) ← b.read 2 r3
    (credit, r5) ← b.read 2 r4
    (flags, r6) ← b.read 4 r5
    (next_command, r7) ← b.read 4 r6
    (message_id, r8) ← b.read 8 r7
    (tail_bytes, r9) ← read_bytes 8 r8
    (session_id, r10) ← b.read 8 r9
    (signature, r11) ← read_bytes 16 r10
    ok (
      record {
        protocol_id = protocol_id;
        structure_size = structure_size;
        credit_charge = credit_charge;
        channel_sequence_status = status;
        command_raw = command_raw;
        credit_request_response = credit;
        flags = flags;
        next_command = next_command;
        message_id = message_id;
        tail_bytes = tail_bytes;
        session_id = session_id;
        signature = signature;
      },
      r11,
    )

  unfoldable pub raw_write : RawHeader → List ℕ
  raw_write r =
      r.protocol_id
      ++ (b.write 2 r.structure_size
          ++ (b.write 2 r.credit_charge
              ++ (b.write 4 r.channel_sequence_status
                  ++ (b.write 2 r.command_raw
                      ++ (b.write 2 r.credit_request_response
                          ++ (b.write 4 r.flags
                              ++ (b.write 4 r.next_command
                                  ++ (b.write 8 r.message_id
                                      ++ (r.tail_bytes
                                          ++ (b.write 8 r.session_id ++ r.signature))))))))))

-- Every field has the width of its type.
pub record FitsRaw (r : RawHeader) : Type 0 where
  pub protocol_id : length r.protocol_id ≡ 4
  pub structure_size : r.structure_size < 256 ^ 2
  pub credit_charge : r.credit_charge < 256 ^ 2
  pub status : r.channel_sequence_status < 256 ^ 4
  pub command_raw : r.command_raw < 256 ^ 2
  pub credit : r.credit_request_response < 256 ^ 2
  pub flags : r.flags < 256 ^ 4
  pub next_command : r.next_command < 256 ^ 4
  pub message_id : r.message_id < 256 ^ 8
  pub tail_bytes : length r.tail_bytes ≡ 8
  pub session_id : r.session_id < 256 ^ 8
  pub signature : length r.signature ≡ 16

module _ ⦃b : Binrw⦄ where
  pub raw_read-raw_write : (r : RawHeader) → FitsRaw r → raw_read (raw_write r) ≡ ok (r, List.[])
  unfolding raw_read raw_write
  raw_read-raw_write r f = rw (
    read_bytes-append 4 r.protocol_id _ f.protocol_id,
    read-write 2 r.structure_size _ f.structure_size,
    read-write 2 r.credit_charge _ f.credit_charge,
    read-write 4 r.channel_sequence_status _ f.status,
    read-write 2 r.command_raw _ f.command_raw,
    read-write 2 r.credit_request_response _ f.credit,
    read-write 4 r.flags _ f.flags,
    read-write 4 r.next_command _ f.next_command,
    read-write 8 r.message_id _ f.message_id,
    read_bytes-append 8 r.tail_bytes _ f.tail_bytes,
    read-write 8 r.session_id _ f.session_id,
    read_bytes_all 16 r.signature f.signature,
  )

  -- Any 64 bytes are the fields of some header, which are written as the same bytes.
  pub raw_read_total :
      (buf : List ℕ)
      → IsBytes buf
      → length buf ≡ 64
      → (r : RawHeader) × (raw_read buf ≡ ok (r, List.[]))
        × FitsRaw r
        × (raw_write r ≡ buf)
        × IsBytes r.tail_bytes
  unfolding raw_read raw_write
  raw_read_total buf bytes len = read_bytes_then 4 buf bytes (omega arith) λ p r0 e0 l0 w0 n0 b0 _.
      read_then 2 r0 b0 (omega arith) λ v1 r1 e1 l1 w1 n1 b1.
        read_then 2 r1 b1 (omega arith) λ v2 r2 e2 l2 w2 n2 b2.
          read_then 4 r2 b2 (omega arith) λ v3 r3 e3 l3 w3 n3 b3.
            read_then 2 r3 b3 (omega arith) λ v4 r4 e4 l4 w4 n4 b4.
              read_then 2 r4 b4 (omega arith) λ v5 r5 e5 l5 w5 n5 b5.
                read_then 4 r5 b5 (omega arith) λ v6 r6 e6 l6 w6 n6 b6.
                  read_then 4 r6 b6 (omega arith) λ v7 r7 e7 l7 w7 n7 b7.
                    read_then 8 r7 b7 (omega arith) λ v8 r8 e8 l8 w8 n8 b8.
                      read_bytes_then 8 r8 b8 (omega arith) λ t r9 e9 l9 w9 n9 b9 bt.
                        read_then 8 r9 b9 (omega arith) λ v10 r10 e10 l10 w10 n10 b10. (
                          record {
                            protocol_id = p;
                            structure_size = v1;
                            credit_charge = v2;
                            channel_sequence_status = v3;
                            command_raw = v4;
                            credit_request_response = v5;
                            flags = v6;
                            next_command = v7;
                            message_id = v8;
                            tail_bytes = t;
                            session_id = v10;
                            signature = r10;
                          },
                          rw (
                            e0,
                            e1,
                            e2,
                            e3,
                            e4,
                            e5,
                            e6,
                            e7,
                            e8,
                            e9,
                            e10,
                            read_bytes_all 16 r10 (omega arith),
                          ),
                          record {
                            protocol_id = l0;
                            structure_size = l1;
                            credit_charge = l2;
                            status = l3;
                            command_raw = l4;
                            credit = l5;
                            flags = l6;
                            next_command = l7;
                            message_id = l8;
                            tail_bytes = l9;
                            session_id = l10;
                            signature = omega arith;
                          },
                          rw (w10, w9, w8, w7, w6, w5, w4, w3, w2, w1, w0),
                          bt,
                        )
