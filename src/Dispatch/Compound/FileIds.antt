-- ===== src/Dispatch/Compound/FileIds.antt =====
-- Where dispatch.rs looks for the file id of a request, the wire struct of the command has it; and where
-- it takes the id of a CREATE response from, that response has it.
use rust_smb_server.Prelude.{
  ◌+◌, ◌≤◌, ltb, not_ltb, false, length, arith, take, drop, drop-drop, take-append, drop-append, ap,
  ◌∙◌, ℕ, ◌≡◌, sym, Option, none, some, List, [], ◌++◌, append-nil, length-append,
}
use rust_smb_server.Prelude.Bytes.{length-le_bytes, slice, le_bytes, from_le_bytes}
use rust_smb_server.Proto.Wire.{Binrw, length-write}
use rust_smb_server.Proto.Layout.{write}
use rust_smb_server.Proto.FileId.{file_id_layout}
use rust_smb_server.Proto.Header.Opcode
use rust_smb_server.Proto.Header.Opcode.{Command}
use rust_smb_server.Proto.Messages.Close.{CloseRequest, close_request}
use rust_smb_server.Proto.Messages.Flush.{FlushRequest, flush_request}
use rust_smb_server.Proto.Messages.Lock.{LockRequest, lock_request}
use rust_smb_server.Proto.Messages.Ioctl.{IoctlRequest, ioctl_request}
use rust_smb_server.Proto.Messages.QueryDirectory.{QueryDirectoryRequest, query_directory_request}
use rust_smb_server.Proto.Messages.ChangeNotify.{ChangeNotifyRequest, change_notify_request}
use rust_smb_server.Proto.Messages.OplockBreak.{OplockBreakNotification, oplock_break_notification}
use rust_smb_server.Proto.Messages.Read.{ReadRequest, read_request}
use rust_smb_server.Proto.Messages.Write.{WriteRequest, write_request}
use rust_smb_server.Proto.Messages.QueryInfo.{QueryInfoRequest, query_info_request}
use rust_smb_server.Proto.Messages.SetInfo.{SetInfoRequest, set_info_request}
use rust_smb_server.Proto.Messages.Create.{CreateResponse, create_response}
use rust_smb_server.Proto.Header
use rust_smb_server.Proto.Header.{Smb2Header}
use rust_smb_server.Proto.Header.Ids.{length-write_frame, slice-body, slice-status}
use rust_smb_server.Dispatch.Compound.{file_id_body_offset, capture_create_file_id}

-- The bytes of a file id, as the loop copies them.
abbrev pub file_id_bytes : ℕ → ℕ → List ℕ
file_id_bytes persistent volatile = le_bytes 8 persistent ++ le_bytes 8 volatile

-- The id stands in a body where the offset of its command says.
abbrev pub FileIdAt : Option ℕ → List ℕ → ℕ → ℕ → Type 0
FileIdAt none body persistent volatile = ⊥
FileIdAt (some offset) body persistent volatile =
    slice body offset 16 ≡ file_id_bytes persistent volatile

module _ ⦃b : Binrw⦄ where
  -- A field in front of the id is passed over.
  skip : (w n v : ℕ) (rest : List ℕ) → slice (b.write w v ++ rest) (w + n) 16 ≡ slice rest n 16
  skip w n v rest = ap (take 16) (
      sym (drop-drop n w (w + n) (b.write w v ++ rest) (omega arith))
      ∙ ap (drop n) (drop-append (b.write w v) rest w (length-write w v)))

  -- The id in front of what follows it.
  here :
      (p v : ℕ) (rest : List ℕ)
      → slice ((b.write 8 p ++ b.write 8 v) ++ rest) 0 16 ≡ file_id_bytes p v
  here p v rest =
      rw (b.write_little 8 p, b.write_little 8 v)
        (take-append (le_bytes 8 p ++ le_bytes 8 v) rest 16 (
          length-append (le_bytes 8 p) (le_bytes 8 v)
          ∙ omega (arith, length-le_bytes 8 p, length-le_bytes 8 v)))

  -- The id at the end.
  at_end : (p v : ℕ) → slice (b.write 8 p ++ b.write 8 v) 0 16 ≡ file_id_bytes p v
  at_end p v = ap (take 16) (sym (append-nil (b.write 8 p ++ b.write 8 v))) ∙ here p v []

  close_file_id :
      (r : CloseRequest)
      → FileIdAt
          (file_id_body_offset Opcode.close)
          (write close_request r)
          r.file_id.persistent
          r.file_id.volatile
  unfolding file_id_body_offset close_request file_id_layout
  close_file_id r = skip 2 6 _ _ ∙ skip 2 4 _ _ ∙ skip 4 0 _ _ ∙ at_end _ _

  flush_file_id :
      (r : FlushRequest)
      → FileIdAt
          (file_id_body_offset Opcode.flush)
          (write flush_request r)
          r.file_id_persistent
          r.file_id_volatile
  unfolding file_id_body_offset flush_request file_id_layout
  flush_file_id r = skip 2 6 _ _ ∙ skip 2 4 _ _ ∙ skip 4 0 _ _ ∙ at_end _ _

  lock_file_id :
      (r : LockRequest)
      → FileIdAt
          (file_id_body_offset Opcode.lock)
          (write lock_request r)
          r.file_id.persistent
          r.file_id.volatile
  unfolding file_id_body_offset lock_request file_id_layout
  lock_file_id r = skip 2 6 _ _ ∙ skip 2 4 _ _ ∙ skip 4 0 _ _ ∙ here _ _ _

  ioctl_file_id :
      (r : IoctlRequest)
      → FileIdAt
          (file_id_body_offset Opcode.ioctl)
          (write ioctl_request r)
          r.file_id.persistent
          r.file_id.volatile
  unfolding file_id_body_offset ioctl_request file_id_layout
  ioctl_file_id r = skip 2 6 _ _ ∙ skip 2 4 _ _ ∙ skip 4 0 _ _ ∙ here _ _ _

  query_directory_file_id :
      (r : QueryDirectoryRequest)
      → FileIdAt
          (file_id_body_offset Opcode.query_directory)
          (write query_directory_request r)
          r.file_id.persistent
          r.file_id.volatile
  unfolding file_id_body_offset query_directory_request file_id_layout
  query_directory_file_id r = skip 2 6 _ _ ∙ skip 1 5 _ _ ∙ skip 1 4 _ _ ∙ skip 4 0 _ _ ∙ here _ _ _

  change_notify_file_id :
      (r : ChangeNotifyRequest)
      → FileIdAt
          (file_id_body_offset Opcode.change_notify)
          (write change_notify_request r)
          r.file_id.persistent
          r.file_id.volatile
  unfolding file_id_body_offset change_notify_request file_id_layout
  change_notify_file_id r = skip 2 6 _ _ ∙ skip 2 4 _ _ ∙ skip 4 0 _ _ ∙ here _ _ _

  oplock_break_file_id :
      (r : OplockBreakNotification)
      → FileIdAt
          (file_id_body_offset Opcode.oplock_break)
          (write oplock_break_notification r)
          r.file_id.persistent
          r.file_id.volatile
  unfolding file_id_body_offset oplock_break_notification file_id_layout
  oplock_break_file_id r = skip 2 6 _ _ ∙ skip 1 5 _ _ ∙ skip 1 4 _ _ ∙ skip 4 0 _ _ ∙ at_end _ _

  read_file_id :
      (r : ReadRequest)
      → FileIdAt
          (file_id_body_offset Opcode.read)
          (write read_request r)
          r.file_id.persistent
          r.file_id.volatile
  unfolding file_id_body_offset read_request file_id_layout
  read_file_id r =
      skip 2 14 _ _ ∙ skip 1 13 _ _ ∙ skip 1 12 _ _ ∙ skip 4 8 _ _ ∙ skip 8 0 _ _ ∙ here _ _ _

  write_file_id :
      (r : WriteRequest)
      → FileIdAt
          (file_id_body_offset Opcode.write)
          (write write_request r)
          r.file_id.persistent
          r.file_id.volatile
  unfolding file_id_body_offset write_request file_id_layout
  write_file_id r = skip 2 14 _ _ ∙ skip 2 12 _ _ ∙ skip 4 8 _ _ ∙ skip 8 0 _ _ ∙ here _ _ _

  query_info_file_id :
      (r : QueryInfoRequest)
      → FileIdAt
          (file_id_body_offset Opcode.query_info)
          (write query_info_request r)
          r.file_id.persistent
          r.file_id.volatile
  unfolding file_id_body_offset query_info_request file_id_layout
  query_info_file_id r =
      skip 2 22 _ _
      ∙ skip 1 21 _ _
      ∙ skip 1 20 _ _
      ∙ skip 4 16 _ _
      ∙ skip 2 14 _ _
      ∙ skip 2 12 _ _
      ∙ skip 4 8 _ _
      ∙ skip 4 4 _ _
      ∙ skip 4 0 _ _
      ∙ here _ _ _

  set_info_file_id :
      (r : SetInfoRequest)
      → FileIdAt
          (file_id_body_offset Opcode.set_info)
          (write set_info_request r)
          r.file_id.persistent
          r.file_id.volatile
  unfolding file_id_body_offset set_info_request file_id_layout
  set_info_file_id r =
      skip 2 14 _ _
      ∙ skip 1 13 _ _
      ∙ skip 1 12 _ _
      ∙ skip 4 8 _ _
      ∙ skip 2 6 _ _
      ∙ skip 2 4 _ _
      ∙ skip 4 0 _ _
      ∙ here _ _ _

  created_file_id :
      (r : CreateResponse)
      → FileIdAt (some 64) (write create_response r) r.file_id.persistent r.file_id.volatile
  unfolding file_id_body_offset create_response file_id_layout
  created_file_id r =
      skip 2 62 _ _
      ∙ skip 1 61 _ _
      ∙ skip 1 60 _ _
      ∙ skip 4 56 _ _
      ∙ skip 8 48 _ _
      ∙ skip 8 40 _ _
      ∙ skip 8 32 _ _
      ∙ skip 8 24 _ _
      ∙ skip 8 16 _ _
      ∙ skip 8 8 _ _
      ∙ skip 4 4 _ _
      ∙ skip 4 0 _ _
      ∙ here _ _ _

  length-create_response : (r : CreateResponse) → 80 ≤ length (write create_response r)
  unfolding create_response file_id_layout
  length-create_response r = simp (length-append, length-write) (omega arith)

  -- The id of a CREATE response behind its header, where the loop takes it from.
  capture_created :
      (hdr : Smb2Header) (r : CreateResponse)
      → length hdr.signature ≡ 16
      → hdr.channel_sequence_status ≡ 0
      → capture_create_file_id (Header.write hdr ++ write create_response r)
        ≡ some (file_id_bytes r.file_id.persistent r.file_id.volatile)
  unfolding capture_create_file_id
  capture_created hdr r signature success =
      let body : List ℕ = write create_response r in
      let long : ltb (length (Header.write hdr ++ body)) 144 ≡ false =
        not_ltb (length (Header.write hdr ++ body)) 144
          (omega (arith, length-write_frame hdr body signature, length-create_response r)) in
      let status : from_le_bytes (slice (Header.write hdr ++ body) 8 4) ≡ 0 =
        slice-status hdr body (omega (arith, success)) ∙ success in
      rw (long, status) (ap some (slice-body hdr body 64 16 signature ∙ created_file_id r))

  -- For every command with an offset, the body that its wire struct writes has the 16 bytes of
  -- its file id at the offset of file_id_body_offset; and from a CREATE response behind the
  -- header of a success capture_create_file_id takes the 16 bytes of its file id.
  pub file_id_body_offset-FileIdAt :
      (close_req : CloseRequest) (flush_req : FlushRequest) (lock_req : LockRequest)
      (ioctl_req : IoctlRequest) (query_directory_req : QueryDirectoryRequest)
      (change_notify_req : ChangeNotifyRequest) (oplock_break_req : OplockBreakNotification)
      (read_req : ReadRequest) (write_req : WriteRequest) (query_info_req : QueryInfoRequest)
      (set_info_req : SetInfoRequest) (created : CreateResponse) (hdr : Smb2Header)
      → length hdr.signature ≡ 16
      → hdr.channel_sequence_status ≡ 0
      → FileIdAt
          (file_id_body_offset Opcode.close)
          (write close_request close_req)
          close_req.file_id.persistent
          close_req.file_id.volatile
        × FileIdAt
            (file_id_body_offset Opcode.flush)
            (write flush_request flush_req)
            flush_req.file_id_persistent
            flush_req.file_id_volatile
        × FileIdAt
            (file_id_body_offset Opcode.lock)
            (write lock_request lock_req)
            lock_req.file_id.persistent
            lock_req.file_id.volatile
        × FileIdAt
            (file_id_body_offset Opcode.ioctl)
            (write ioctl_request ioctl_req)
            ioctl_req.file_id.persistent
            ioctl_req.file_id.volatile
        × FileIdAt
            (file_id_body_offset Opcode.query_directory)
            (write query_directory_request query_directory_req)
            query_directory_req.file_id.persistent
            query_directory_req.file_id.volatile
        × FileIdAt
            (file_id_body_offset Opcode.change_notify)
            (write change_notify_request change_notify_req)
            change_notify_req.file_id.persistent
            change_notify_req.file_id.volatile
        × FileIdAt
            (file_id_body_offset Opcode.oplock_break)
            (write oplock_break_notification oplock_break_req)
            oplock_break_req.file_id.persistent
            oplock_break_req.file_id.volatile
        × FileIdAt
            (file_id_body_offset Opcode.read)
            (write read_request read_req)
            read_req.file_id.persistent
            read_req.file_id.volatile
        × FileIdAt
            (file_id_body_offset Opcode.write)
            (write write_request write_req)
            write_req.file_id.persistent
            write_req.file_id.volatile
        × FileIdAt
            (file_id_body_offset Opcode.query_info)
            (write query_info_request query_info_req)
            query_info_req.file_id.persistent
            query_info_req.file_id.volatile
        × FileIdAt
            (file_id_body_offset Opcode.set_info)
            (write set_info_request set_info_req)
            set_info_req.file_id.persistent
            set_info_req.file_id.volatile
        × (capture_create_file_id (Header.write hdr ++ write create_response created)
            ≡ some (file_id_bytes created.file_id.persistent created.file_id.volatile))
  file_id_body_offset-FileIdAt close_req flush_req lock_req ioctl_req query_directory_req
        change_notify_req oplock_break_req read_req write_req query_info_req set_info_req created
        hdr signature success =
      (
        close_file_id close_req,
        flush_file_id flush_req,
        lock_file_id lock_req,
        ioctl_file_id ioctl_req,
        query_directory_file_id query_directory_req,
        change_notify_file_id change_notify_req,
        oplock_break_file_id oplock_break_req,
        read_file_id read_req,
        write_file_id write_req,
        query_info_file_id query_info_req,
        set_info_file_id set_info_req,
        capture_created hdr created signature success,
      )
