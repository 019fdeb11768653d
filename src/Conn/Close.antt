-- ===== src/Conn/Close.antt =====
-- conn/state.rs: closing sessions and trees, and the handles in them. The result of a handle's
-- `close` is ignored.
pub mod Laws
use rust_smb_server.Prelude.{
  ℕ, ◌+◌, if◌then◌else◌, Bool, true, false, ◌&&◌, Option, none, some, List, [], ◌∷◌,
}
use rust_smb_server.Prelude.Assoc.{lookup, remove, modify, keys_where}
use rust_smb_server.Prelude.Text.{Str, eq_ignore_ascii_case}
use rust_smb_server.Backend.{Storage}
use rust_smb_server.Access.{is_user}
use rust_smb_server.Proto.FileId.{FileId, file_id_eq}
use rust_smb_server.Conn.State.{Open, TreeConnect, Session, Connection, nat_eq}

module _ (S : Storage) where
  unfoldable pub close_handle : Option S.Handle → S.World → S.World
  close_handle none w = w
  close_handle (some h) w = (S.close h w).1

  unfoldable pub close_opens : List (FileId × Open S) → S.World → S.World
  unfolding close_handle
  close_opens [] w = w
  close_opens ((_, o) ∷ opens) w = close_opens opens (close_handle o.handle w)

  unfoldable pub close_tree_state : TreeConnect S → S.World → S.World
  close_tree_state t w = close_opens t.opens w

  unfoldable pub close_trees : List (ℕ × TreeConnect S) → S.World → S.World
  close_trees [] w = w
  close_trees ((_, t) ∷ trees) w = close_trees trees (close_tree_state t w)

  unfoldable pub close_session_state : Session S → S.World → S.World
  close_session_state s w = close_trees s.trees w

  unfoldable pub close_session : Connection S → ℕ → S.World → Bool × Connection S × S.World
  close_session c session_id w = elim (lookup session_id c.sessions) [
    | some s ↦ (true, record c { sessions = remove session_id c.sessions }, close_session_state s w)
    | none ↦ (false, c, w)
  ]

  -- A session once the tree of the id is taken from its table.
  unfoldable pub without_tree :
      Session S → ℕ → Option (TreeConnect S) → S.World → Bool × Session S × S.World
  without_tree s tree_id (some t) w =
      (true, record s { trees = remove tree_id s.trees }, close_tree_state t w)
  without_tree s tree_id none w = (false, s, w)

  unfoldable pub remove_tree_from_session : Session S → ℕ → S.World → Bool × Session S × S.World
  remove_tree_from_session s tree_id w = without_tree s tree_id (lookup tree_id s.trees) w

  unfoldable pub close_tree : Connection S → ℕ → ℕ → S.World → Bool × Connection S × S.World
  close_tree c session_id tree_id w = elim (lookup session_id c.sessions) [
    | none ↦ (false, c, w)
    | some s ↦
        let (removed, s', w') = remove_tree_from_session s tree_id w in
        (removed, record c { sessions = modify session_id (λ _. s') c.sessions }, w')
  ]

  -- The ids of the sessions of a user.
  unfoldable pub sessions_of : Str → List (ℕ × Session S) → List ℕ
  sessions_of name sessions = keys_where (λ s. is_user s.identity name) sessions

  unfoldable pub close_sessions : List ℕ → Connection S → S.World → ℕ × Connection S × S.World
  close_sessions [] c w = (0, c, w)
  close_sessions (id ∷ ids) c w =
      let (closed, c', w') = close_session c id w in
      let (removed, c'', w'') = close_sessions ids c' w' in
      ((if closed then removed + 1 else removed), c'', w'')

  unfoldable pub close_sessions_for_user : Connection S → Str → S.World → ℕ × Connection S × S.World
  close_sessions_for_user c name w = close_sessions (sessions_of name c.sessions) c w

  -- The ids of the trees that pass a test.
  unfoldable pub matching_trees : (TreeConnect S → Bool) → List (ℕ × TreeConnect S) → List ℕ
  matching_trees test trees = keys_where test trees

  unfoldable pub remove_trees : List ℕ → Session S → S.World → ℕ × Session S × S.World
  remove_trees [] s w = (0, s, w)
  remove_trees (id ∷ ids) s w =
      let (closed, s', w') = remove_tree_from_session s id w in
      let (removed, s'', w'') = remove_trees ids s' w' in
      ((if closed then removed + 1 else removed), s'', w'')

  unfoldable pub close_matching_in :
      (Session S → TreeConnect S → Bool)
      → List (ℕ × Session S)
      → S.World
      → ℕ × List (ℕ × Session S) × S.World
  close_matching_in test [] w = (0, [], w)
  close_matching_in test ((id, s) ∷ sessions) w =
      let (removed, s', w') = remove_trees (matching_trees (test s) s.trees) s w in
      let (others, sessions', w'') = close_matching_in test sessions w' in
      (removed + others, (id, s') ∷ sessions', w'')

  unfoldable pub close_matching_trees :
      (Session S → TreeConnect S → Bool) → Connection S → S.World → ℕ × Connection S × S.World
  close_matching_trees test c w =
      let (removed, sessions', w') = close_matching_in test c.sessions w in
      (removed, record c { sessions = sessions' }, w')

  abbrev pub of_share : Str → Session S → TreeConnect S → Bool
  of_share share_name s t = eq_ignore_ascii_case t.share.name share_name

  abbrev pub of_user_share : Str → Str → Session S → TreeConnect S → Bool
  of_user_share name share_name s t =
      is_user s.identity name && eq_ignore_ascii_case t.share.name share_name

  unfoldable pub close_trees_for_share : Connection S → Str → S.World → ℕ × Connection S × S.World
  close_trees_for_share c share_name w = close_matching_trees (of_share share_name) c w

  unfoldable pub close_trees_for_user_share :
      Connection S → Str → Str → S.World → ℕ × Connection S × S.World
  close_trees_for_user_share c name share_name w =
      close_matching_trees (of_user_share name share_name) c w
