-- ===== src/Handlers/Shared.antt =====
-- handlers/shared.rs: the session, the tree and the open file that a request names.
use rust_smb_server.Prelude.{
  ℕ, ◌==◌, if◌then◌else◌, ◌≡◌, refl, false, Bool-cases, inl, inr, Option, some,
}
use rust_smb_server.Prelude.Assoc.{lookup}
use rust_smb_server.Backend.{Storage}
use rust_smb_server.Ntstatus
use rust_smb_server.Proto.FileId.{FileId, file_id_eq}
use rust_smb_server.Conn.State.{Open, TreeConnect, Session, Connection, nat_eq}
use rust_smb_server.Handlers.{HandlerResult, ok, err, ◌>>=◌, ok_or, ok_or-eq-ok, bind_then}

module _ (S : Storage) where
  unfoldable pub lookup_session : Connection S → ℕ → HandlerResult (Session S)
  lookup_session c sid =
      if sid == 0
      then err Ntstatus.user_session_deleted
      else ok_or Ntstatus.user_session_deleted (lookup sid c.sessions)

  -- `tid` is `hdr.tree_id()`.
  unfoldable pub lookup_session_tree : Connection S → ℕ → Option ℕ → HandlerResult (TreeConnect S)
  lookup_session_tree c sid tid = do
    id ← ok_or Ntstatus.invalid_parameter tid
    s ← lookup_session c sid
    ok_or Ntstatus.network_name_deleted (lookup id s.trees)

  unfoldable pub lookup_open : TreeConnect S → FileId → Option (Open S)
  lookup_open t file_id = lookup file_id t.opens

  pub lookup_session-ok :
      (c : Connection S) (sid : ℕ) (s : Session S)
      → lookup_session c sid ≡ ok s
      → ((sid == 0) ≡ false) × (lookup sid c.sessions ≡ some s)
  unfolding lookup_session
  lookup_session-ok c sid s h = elim (Bool-cases (sid == 0)) [
    | inl zero_id ↦ let no : err Ntstatus.user_session_deleted ≡ ok s = rw zero_id at h in cc no
    | inr given ↦
        (given, ok_or-eq-ok Ntstatus.user_session_deleted (lookup sid c.sessions) (rw given at h))
  ]

  -- A tree that a request reaches stands in a session of the connection.
  pub record InSession (c : Connection S) (sid id : ℕ) (t : TreeConnect S) : Type 0 where
    pub session : Session S
    pub nonzero : (sid == 0) ≡ false
    pub found : lookup sid c.sessions ≡ some session
    pub tree : lookup id session.trees ≡ some t

  pub lookup_session_tree-InSession :
      (c : Connection S) (sid id : ℕ) (t : TreeConnect S)
      → lookup_session_tree c sid (some id) ≡ ok t
      → InSession c sid id t
  unfolding lookup_session_tree
  lookup_session_tree-InSession c sid id t h = bind_then (lookup_session c sid) _ h (λ s session h.
      record {
        session = s;
        nonzero = (lookup_session-ok c sid s session).0;
        found = (lookup_session-ok c sid s session).1;
        tree = ok_or-eq-ok Ntstatus.network_name_deleted (lookup id s.trees) h;
      })

  pub InSession-lookup_session_tree :
      (c : Connection S) (sid id : ℕ) (t : TreeConnect S)
      → InSession c sid id t
      → lookup_session_tree c sid (some id) ≡ ok t
  unfolding lookup_session_tree lookup_session
  InSession-lookup_session_tree c sid id t h = rw (h.nonzero, h.found, h.tree) refl
