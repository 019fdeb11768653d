-- ===== src/Handlers/Files/Laws.antt =====
-- What a write and a close need, and what they do.
use rust_smb_server.Prelude.{
  ℕ, ◌⊎◌, ==-refl, ltb, ◌≡◌, refl, not, Bool, false, inl, inr, Option, some, List,
}
use rust_smb_server.Prelude.Assoc.{modify, lookup-modify, lookup-remove}
use rust_smb_server.Backend.{Storage, FileInfo}
use rust_smb_server.Access.{Access, read, read_write, allows_write}
use rust_smb_server.Ntstatus
use rust_smb_server.Proto.FileId.{FileId, file_id_eq}
use rust_smb_server.Conn.State.{Open, TreeConnect, Session, Connection, nat_eq}
use rust_smb_server.Handlers.{
  HandlerResult, ok, err, ok_or, bind_then, ok_or-eq-ok, refuse_if, refuse_if-eq-ok,
}
use rust_smb_server.Handlers.Shared.{
  lookup_session_tree, lookup_open, InSession, lookup_session_tree-InSession,
  InSession-lookup_session_tree,
}
use rust_smb_server.Handlers.Files.{
  reported, open_handle, writable, run_write, write, drop_open, without_open, tree_and_open,
  closing, run_close, close,
}

module _ (S : Storage) where
  -- What a handle for writing stands for.
  pub record Writable (c : Connection S) (sid : ℕ) (tid : Option ℕ) (file_id : FileId) (len : ℕ)
      (h : S.Handle) : Type 0 where
    pub tree : TreeConnect S
    pub file : Open S
    pub fits : ltb c.max_write_size len ≡ false
    pub in_session : lookup_session_tree S c sid tid ≡ ok tree
    pub granted : tree.granted_access ≡ read_write
    pub opened : lookup_open S tree file_id ≡ some file
    pub live : file.handle ≡ some h

  write-access : (a : Access) → not (allows_write a) ≡ false → a ≡ read_write
  unfolding allows_write
  write-access read h = cc
  write-access read_write h = refl

  writable-Writable :
      (c : Connection S) (sid : ℕ) (tid : Option ℕ) (file_id : FileId) (len : ℕ) (h : S.Handle)
      → writable S c sid tid file_id len ≡ ok h
      → Writable c sid tid file_id len h
  unfolding writable open_handle
  writable-Writable c sid tid file_id len h e =
      bind_then (refuse_if (ltb c.max_write_size len) Ntstatus.invalid_parameter) _ e (λ _ small e.
        bind_then (lookup_session_tree S c sid tid) _ e (λ t found e.
          bind_then (refuse_if (not (allows_write t.granted_access)) Ntstatus.access_denied) _ e
            (λ _ allowed e.
              bind_then (ok_or Ntstatus.file_closed (lookup_open S t file_id)) _ e (λ o opened e.
                record {
                  tree = t;
                  file = o;
                  fits = refuse_if-eq-ok _ Ntstatus.invalid_parameter small;
                  in_session = found;
                  granted =
                      write-access t.granted_access
                        (refuse_if-eq-ok _ Ntstatus.access_denied allowed);
                  opened = ok_or-eq-ok Ntstatus.file_closed (lookup_open S t file_id) opened;
                  live = ok_or-eq-ok Ntstatus.file_closed o.handle e;
                }))))

  run_write-cases :
      (c : Connection S) (sid : ℕ) (tid : Option ℕ) (file_id : FileId) (offset len : ℕ)
      (bytes : List ℕ) (w : S.World) (r : HandlerResult S.Handle)
      → writable S c sid tid file_id len ≡ r
      → (((status : ℕ) × (run_write S r offset bytes w ≡ (err status, w))))
        ⊎ ((h : S.Handle) × Writable c sid tid file_id len h
            × (run_write S r offset bytes w ≡ (
              reported (S.write_owned h offset bytes w).0,
              (S.write_owned h offset bytes w).1,
            )))
  unfolding run_write
  run_write-cases c sid tid file_id offset len bytes w (err status) e = inl (status, refl)
  run_write-cases c sid tid file_id offset len bytes w (ok h) e =
      inr (h, writable-Writable c sid tid file_id len h e, refl)

  -- A WRITE is refused with a status and leaves the storage as it was, or its length is within
  -- the connection's limit, its tree is in its session with read-write access, the file is
  -- open in that tree with a live handle, and reply and storage are those of the handle's
  -- write.
  pub write-cases :
      (c : Connection S) (sid : ℕ) (tid : Option ℕ) (file_id : FileId) (offset len : ℕ)
      (bytes : List ℕ) (w : S.World)
      → ((status : ℕ) × (write S c sid tid file_id offset len bytes w ≡ (err status, w)))
        ⊎ ((h : S.Handle) × Writable c sid tid file_id len h
            × (write S c sid tid file_id offset len bytes w ≡ (
              reported (S.write_owned h offset bytes w).0,
              (S.write_owned h offset bytes w).1,
            )))
  unfolding write
  write-cases c sid tid file_id offset len bytes w =
      run_write-cases c sid tid file_id offset len bytes w (writable S c sid tid file_id len) refl

  drop_open-InSession :
      (c : Connection S) (sid tid : ℕ) (t : TreeConnect S) (file_id : FileId)
      → InSession S c sid tid t
      → InSession S (drop_open S c sid tid file_id) sid tid (without_open S file_id t)
  unfolding drop_open
  drop_open-InSession c sid tid t file_id h = record {
    session = record h.session { trees = modify tid (without_open S file_id) h.session.trees };
    nonzero = h.nonzero;
    found =
        rw
          (
            lookup-modify sid sid
                (λ (s : Session S). record s {
                  trees = modify tid (without_open S file_id) s.trees;
                })
                c.sessions,
            ==-refl sid,
            h.found,
          )
          refl;
    tree =
        rw (lookup-modify tid tid (without_open S file_id) h.session.trees, ==-refl tid, h.tree)
          refl;
  }

  tree_and_open-dropped :
      (c : Connection S) (sid tid : ℕ) (t : TreeConnect S) (file_id : FileId)
      → InSession S c sid tid t
      → tree_and_open S (drop_open S c sid tid file_id) sid tid file_id ≡ err Ntstatus.file_closed
  unfolding tree_and_open without_open
  tree_and_open-dropped c sid tid t file_id h =
      rw
        (
          InSession-lookup_session_tree S (drop_open S c sid tid file_id) sid tid _
              (drop_open-InSession c sid tid t file_id h),
          lookup-remove file_id file_id t.opens,
          (file_id_eq.beq_iff file_id file_id).1 refl,
        )
        refl

  run_close-dropped :
      (c : Connection S) (sid tid : ℕ) (file_id : FileId) (want : Bool) (w : S.World)
      (r : HandlerResult (TreeConnect S × Open S)) (info : Option FileInfo)
      → tree_and_open S c sid tid file_id ≡ r
      → (run_close S sid tid file_id want c r w).0 ≡ ok info
      → tree_and_open S (run_close S sid tid file_id want c r w).1 sid tid file_id
        ≡ err Ntstatus.file_closed
  unfolding run_close closing tree_and_open
  run_close-dropped c sid tid file_id want w (err status) info e h = cc
  run_close-dropped c sid tid file_id want w (ok (t, o)) info e h =
      bind_then (lookup_session_tree S c sid (some tid)) _ e (λ t' found _.
        tree_and_open-dropped c sid tid t' file_id
          (lookup_session_tree-InSession S c sid tid t' found))

  -- After a CLOSE that succeeded, a second CLOSE of the same file answers STATUS_FILE_CLOSED.
  pub close-close :
      (c : Connection S) (sid tid : ℕ) (file_id : FileId) (flags flags' : ℕ) (w w' : S.World)
      (info : Option FileInfo)
      → (close S c sid (some tid) file_id flags w).0 ≡ ok info
      → (close S (close S c sid (some tid) file_id flags w).1 sid (some tid) file_id flags' w').0
        ≡ err Ntstatus.file_closed
  unfolding close run_close
  close-close c sid tid file_id flags flags' w w' info h =
      rw (run_close-dropped c sid tid file_id _ w (tree_and_open S c sid tid file_id) info refl h)
        refl
