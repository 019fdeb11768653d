-- ===== src/Server/Admitted.antt =====
-- Who has a tree: every tree of a live connection is of IPC$ or of a share in the table whose ACL
-- still lets the session's identity in. What a change of the shares does to it.
pub mod Changes
pub mod Config
pub mod Closed
use rust_smb_server.Prelude.{
  ℕ, if◌then◌else◌, ◌≡◌, refl, Bool, true, false, ◌||◌, ◌&&◌, Bool-cases, inl, inr, Option, none,
  some, List, [], ◌∷◌, All, All-mono, All-both, list_eq,
}
use rust_smb_server.Prelude.Assoc.{
  lookup, insert, remove, modify, keys_where, keys_where-removed, remove_keys, All-remove_keys,
  lookup-remove, lookup-insert, lookup-modify, is_some, contains_key,
}
use rust_smb_server.Prelude.Text.{Str, lowercase, eq_ignore_ascii_case}
use rust_smb_server.Backend.{Storage}
use rust_smb_server.Access.{Access, ShareMode, ShareAcl, Identity, is_user, authorize, str_eq}
use rust_smb_server.Conn.State.{TreeConnect, Session, Connection, nat_eq}
use rust_smb_server.Conn.Close.{
  close_sessions_for_user, close_matching_in, close_matching_trees, of_share, of_user_share,
}
use rust_smb_server.Conn.Close.Laws.{
  close_sessions_for_user-gone, close_sessions_for_user-All, close_matching_in-All,
  without_matching,
}
use rust_smb_server.Server.State.{
  ShareBindings, Shares, find, with_acl, modify_acl, modify_all_acls, remove_share_entry,
  ServerState,
}
use rust_smb_server.Server.Config.{without_user, with_user, with_mode, early, each_live, on_live}
use rust_smb_server.Server.Config.Laws.{
  other_name, authorize-without_user, authorize-with_user, lookup-modify_all_acls, each_live-All,
}

module _ (S : Storage) where
  unfoldable pub admitted_by : Option (ShareBindings S) → Identity → Bool
  admitted_by none identity = false
  admitted_by (some b) identity = is_some (authorize b.acl.mode b.acl.users identity)

  unfoldable pub admitted_tree : Shares S → Identity → TreeConnect S → Bool
  admitted_tree shares identity t =
      t.share.is_ipc || admitted_by (find S t.share.name shares) identity

  abbrev pub AdmittedSession : Shares S → ℕ × Session S → Type 0
  AdmittedSession shares p = All (λ q. admitted_tree shares p.1.identity q.1 ≡ true) p.1.trees

  abbrev pub AdmittedConnection : Shares S → ℕ × Connection S → Type 0
  AdmittedConnection shares p = All (AdmittedSession shares) p.1.sessions

  abbrev pub Admitted : ServerState S → Type 0
  Admitted st = All (AdmittedConnection st.shares) st.connections

  -- A tree that a change of the shares does not reach stays admitted.
  abbrev pub StillAdmitted : Shares S → Shares S → (Session S → TreeConnect S → Bool) → Type 0
  StillAdmitted shares shares' closed =
      (s : Session S) (t : TreeConnect S)
      → closed s t ≡ false
      → admitted_tree shares s.identity t ≡ true
      → admitted_tree shares' s.identity t ≡ true

  module _ (shares shares' : Shares S) (closed : Session S → TreeConnect S → Bool) where
    pub without_matching-Admitted :
        StillAdmitted shares shares' closed
        → (id : ℕ) (s : Session S) → AdmittedSession shares (id, s)
        → AdmittedSession shares' (id, without_matching S closed s)
    without_matching-Admitted still id s h =
        let keys : List ℕ = keys_where (closed s) s.trees in
        let left : List (ℕ × TreeConnect S) = remove_keys keys s.trees in
        All-mono (λ q. (closed s q.1 ≡ false) × (admitted_tree shares s.identity q.1 ≡ true)) _
          (λ q k. still s q.1 k.0 k.1) left
          (All-both _ _ left (keys_where-removed (closed s) s.trees)
            (All-remove_keys _ keys s.trees h))

    -- After the trees that the change reaches are closed everywhere, the others are admitted.
    pub close_matching_trees-Admitted :
        StillAdmitted shares shares' closed
        → (id : ℕ) (c : Connection S) (w : S.World) → AdmittedConnection shares (id, c)
        → AdmittedConnection shares' (id, (close_matching_trees S closed c w).1)
    unfolding close_matching_trees
    close_matching_trees-Admitted still id c w h =
        close_matching_in-All S closed (AdmittedSession shares) (AdmittedSession shares') c.sessions
          w (without_matching-Admitted still) h

  pub close_sessions_for_user-Admitted :
      (shares shares' : Shares S) (name : Str)
      → StillAdmitted shares shares' (λ s t. is_user s.identity name)
      → (id : ℕ) (c : Connection S) (w : S.World) → AdmittedConnection shares (id, c)
      → AdmittedConnection shares' (id, (close_sessions_for_user S c name w).1)
  close_sessions_for_user-Admitted shares shares' name still id c w h =
      All-mono (λ p. (is_user p.1.identity name ≡ false) × AdmittedSession shares p) _
        (λ p k.
          All-mono (λ q. admitted_tree shares p.1.identity q.1 ≡ true) _
            (λ q a. still p.1 q.1 k.0 a) p.1.trees k.1)
        (close_sessions_for_user S c name w).1.sessions
        (All-both _ _ (close_sessions_for_user S c name w).1.sessions
          (close_sessions_for_user-gone S c name w)
          (close_sessions_for_user-All S (AdmittedSession shares) c name w h))

  -- A pass over the live connections in which every connection becomes admitted.
  pub on_live-Admitted :
      (shares : Shares S) (f : Connection S → S.World → ℕ × Connection S × S.World)
      (st : ServerState S)
      → ((id : ℕ) (c : Connection S) (w : S.World)
          → AdmittedConnection shares (id, c)
          → AdmittedConnection st.shares (id, (f c w).1))
      → All (AdmittedConnection shares) st.connections
      → Admitted (on_live S f st)
  unfolding on_live
  on_live-Admitted shares f st step h =
      each_live-All S (AdmittedConnection shares) (AdmittedConnection st.shares) f step
        st.connections st.world h

  -- Where no tree is closed.
  pub shares-Admitted :
      (shares shares' : Shares S) (connections : List (ℕ × Connection S))
      → StillAdmitted shares shares' (λ s t. false)
      → All (AdmittedConnection shares) connections
      → All (AdmittedConnection shares') connections
  shares-Admitted shares shares' connections still h =
      All-mono (AdmittedConnection shares) _
        (λ p.
          All-mono (AdmittedSession shares) _
            (λ q.
              All-mono (λ r. admitted_tree shares q.1.identity r.1 ≡ true) _
                (λ r. still q.1 r.1 refl) q.1.trees)
            p.1.sessions)
        connections h
