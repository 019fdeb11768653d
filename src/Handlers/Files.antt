-- ===== src/Handlers/Files.antt =====
-- handlers/read.rs, write.rs, flush.rs and close.rs, from the decoded request on.
pub mod Laws
use rust_smb_server.Prelude.{
  ℕ, ◌==◌, ltb, if◌then◌else◌, ◌&&◌, not, is_empty, bit_and, Bool, true, false, Option, none, some,
  List, [], ◌∷◌,
}
use rust_smb_server.Prelude.Assoc.{lookup, remove, modify}
use rust_smb_server.Backend.{Storage, FileInfo, backend_unlink}
use rust_smb_server.Error.{SmbResult, to_nt_status}
use rust_smb_server.Access.{Access, read_write, allows_write}
use rust_smb_server.Ntstatus
use rust_smb_server.Proto.FileId.{FileId, file_id_eq}
use rust_smb_server.Conn.State.{Open, TreeConnect, Session, Connection, nat_eq}
use rust_smb_server.Conn.Close.{close_handle}
use rust_smb_server.Handlers.{HandlerResult, ok, err, ◌>>=◌, ok_or, refuse_if}
use rust_smb_server.Handlers.Shared.{lookup_session_tree, lookup_open}

abbrev pub flag_postquery_attrib : ℕ
flag_postquery_attrib = 0x0001

-- The result of a call of the storage as the status of the response.
abbrev pub reported {ℓ} : {A : Type ℓ} → SmbResult A → HandlerResult A
reported (SmbResult.ok a) = ok a
reported (SmbResult.err e) = err (to_nt_status e)

module _ (S : Storage) where
  -- The handle behind an open file of a tree.
  unfoldable pub open_handle : TreeConnect S → FileId → HandlerResult S.Handle
  open_handle t file_id = do
    o ← ok_or Ntstatus.file_closed (lookup_open S t file_id)
    ok_or Ntstatus.file_closed o.handle

  -- No data for a request that asks for some is the end of the file.
  unfoldable pub read_reply : ℕ → List ℕ → HandlerResult (List ℕ)
  read_reply len bytes = if is_empty bytes && ltb 0 len then err Ntstatus.end_of_file else ok bytes

  unfoldable pub run_read :
      HandlerResult S.Handle → ℕ → ℕ → S.World → HandlerResult (List ℕ) × S.World
  run_read (err status) offset len w = (err status, w)
  run_read (ok h) offset len w =
      let (result, w') = S.read h offset len w in (reported result >>= read_reply len, w')

  unfoldable pub read :
      Connection S → ℕ → Option ℕ → FileId → ℕ → ℕ → S.World → HandlerResult (List ℕ) × S.World
  unfolding run_read
  read c sid tid file_id offset len w =
      run_read
        (do
          _ ← refuse_if (ltb c.max_read_size len) Ntstatus.invalid_parameter
          t ← lookup_session_tree S c sid tid
          open_handle t file_id)
        offset len w

  -- The handle that a write may use: only trees with write access have one.
  unfoldable pub writable : Connection S → ℕ → Option ℕ → FileId → ℕ → HandlerResult S.Handle
  unfolding open_handle
  writable c sid tid file_id len = do
    _ ← refuse_if (ltb c.max_write_size len) Ntstatus.invalid_parameter
    t ← lookup_session_tree S c sid tid
    _ ← refuse_if (not (allows_write t.granted_access)) Ntstatus.access_denied
    open_handle t file_id

  unfoldable pub run_write :
      HandlerResult S.Handle → ℕ → List ℕ → S.World → HandlerResult ℕ × S.World
  run_write (err status) offset bytes w = (err status, w)
  run_write (ok h) offset bytes w =
      let (result, w') = S.write_owned h offset bytes w in (reported result, w')

  -- `len` is the length that the request states.
  unfoldable pub write :
      Connection S → ℕ → Option ℕ → FileId → ℕ → ℕ → List ℕ → S.World → HandlerResult ℕ × S.World
  unfolding run_write writable
  write c sid tid file_id offset len bytes w =
      run_write (writable c sid tid file_id len) offset bytes w

  unfoldable pub run_flush : HandlerResult S.Handle → S.World → HandlerResult (Unit {0}) × S.World
  run_flush (err status) w = (err status, w)
  run_flush (ok h) w = let (result, w') = S.flush h w in (reported result, w')

  unfoldable pub flush :
      Connection S → ℕ → Option ℕ → FileId → S.World → HandlerResult (Unit {0}) × S.World
  unfolding run_flush open_handle
  flush c sid tid file_id w =
      run_flush (do t ← lookup_session_tree S c sid tid; open_handle t file_id) w

  -- `stat` before the close, when the client asks for the attributes.
  unfoldable pub stat_before_close : Bool → Option S.Handle → S.World → Option FileInfo × S.World
  stat_before_close false h w = (none, w)
  stat_before_close true none w = (none, w)
  stat_before_close true (some h) w = let (result, w') = S.stat h w in (known result, w')
    where
      known : SmbResult FileInfo → Option FileInfo
      known (SmbResult.ok i) = some i
      known (SmbResult.err e) = none

  -- The result of the unlink is only logged.
  unfoldable pub unlink_after_close : Bool → TreeConnect S → Open S → S.World → S.World
  unlink_after_close false t o w = w
  unlink_after_close true t o w = (backend_unlink S t.share.backend o.last_path w).1

  unfoldable pub without_open : FileId → TreeConnect S → TreeConnect S
  without_open file_id t = record t { opens = remove file_id t.opens }

  -- The open file leaves its tree's table, in the session's table of the connection.
  unfoldable pub drop_open : Connection S → ℕ → ℕ → FileId → Connection S
  drop_open c sid tid file_id = record c {
    sessions =
        modify sid (λ s. record s { trees = modify tid (without_open file_id) s.trees }) c.sessions;
  }

  unfoldable pub closing :
      Bool
      → Connection S
      → TreeConnect S
      → Open S
      → S.World
      → HandlerResult (Option FileInfo) × Connection S × S.World
  unfolding stat_before_close unlink_after_close
  closing want_attrs c t o w =
      let (info, w') = stat_before_close want_attrs o.handle w in
      (ok info, c, unlink_after_close o.delete_on_close t o (close_handle S o.handle w'))

  unfoldable pub run_close :
      ℕ
      → ℕ
      → FileId
      → Bool
      → Connection S
      → HandlerResult (TreeConnect S × Open S)
      → S.World
      → HandlerResult (Option FileInfo) × Connection S × S.World
  unfolding closing
  run_close sid tid file_id want_attrs c (err status) w = (err status, c, w)
  run_close sid tid file_id want_attrs c (ok (t, o)) w =
      closing want_attrs (drop_open c sid tid file_id) t o w

  unfoldable pub tree_and_open :
      Connection S → ℕ → ℕ → FileId → HandlerResult (TreeConnect S × Open S)
  tree_and_open c sid tid file_id = do
    t ← lookup_session_tree S c sid (some tid)
    o ← ok_or Ntstatus.file_closed (lookup file_id t.opens)
    ok (t, o)

  unfoldable pub close :
      Connection S
      → ℕ
      → Option ℕ
      → FileId
      → ℕ
      → S.World
      → HandlerResult (Option FileInfo) × Connection S × S.World
  unfolding run_close tree_and_open
  close c sid none file_id flags w = (err Ntstatus.invalid_parameter, c, w)
  close c sid (some tid) file_id flags w =
      run_close sid tid file_id (not (bit_and flags flag_postquery_attrib == 0)) c
        (tree_and_open c sid tid file_id) w
