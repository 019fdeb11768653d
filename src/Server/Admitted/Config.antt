-- ===== src/Server/Admitted/Config.antt =====
-- Every operation of `ConfigHandle` leaves only admitted trees.
use rust_smb_server.Prelude.{◌&&◌, not, is_empty, Bool-cases, inl, inr, Option, none, some}
use rust_smb_server.Prelude.Assoc.{remove, contains_key}
use rust_smb_server.Prelude.Text.{Str, lowercase}
use rust_smb_server.Backend.{Storage}
use rust_smb_server.Access.{Access, ShareMode, is_public, mode_eq, str_eq}
use rust_smb_server.Conn.State.{nat_eq}
use rust_smb_server.Conn.Close.{
  close_sessions_for_user, close_trees_for_share, close_trees_for_user_share, of_share,
  of_user_share,
}
use rust_smb_server.Server.State.{
  UserCreds, Share, ShareBindings, find, insert_share, modify_acl, modify_all_acls,
  remove_share_entry, ServerState,
}
use rust_smb_server.Server.Config.{
  without_user, with_mode, validate_user_name, validate_share_name, add_user, forget_user,
  remove_user, insert_bindings, bindings_of_share, known_users, first_unknown, add_share,
  forget_share, remove_share, grant_on, grant_share_user, revoke_on, revoke_share_user, set_mode_on,
  set_share_mode,
}
use rust_smb_server.Server.Config.Laws.{early-keeps}
use rust_smb_server.Server.Admitted.{
  Admitted, close_matching_trees-Admitted, close_sessions_for_user-Admitted, on_live-Admitted,
  shares-Admitted,
}
use rust_smb_server.Server.Admitted.Changes.{
  without_user-still, with_user-still, with_mode-still, remove-still, remove_user-still,
  insert-still,
}

module _ (S : Storage) where
  pub add_user-Admitted :
      (hash : Str → UserCreds) (name password : Str) (st : ServerState S)
      → Admitted S st
      → Admitted S (add_user S hash name password st).1
  unfolding add_user
  add_user-Admitted hash name password st h =
      early-keeps S (Admitted S) (validate_user_name name) st _ h h

  -- remove_user keeps every tree of a live connection admitted.
  pub remove_user-Admitted :
      (name : Str) (st : ServerState S) → Admitted S st → Admitted S (remove_user S name st).1
  unfolding remove_user forget_user
  remove_user-Admitted name st h =
      early-keeps S (Admitted S) (validate_user_name name) st _ h
        (elim (Bool-cases (contains_key name st.users)) [
          | inl known ↦ rw known (
              on_live-Admitted S st.shares (λ c w. close_sessions_for_user S c name w)
                (record st {
                  users = remove name st.users;
                  shares = modify_all_acls S (without_user name) st.shares;
                })
                (close_sessions_for_user-Admitted S st.shares _ name
                  (remove_user-still S st.shares name))
                h)
          | inr unknown ↦ rw unknown h
        ])

  insert_bindings-Admitted :
      (b : ShareBindings S) (st : ServerState S)
      → Admitted S st
      → Admitted S (insert_bindings S b st).1
  unfolding insert_bindings insert_share
  insert_bindings-Admitted b st h = elim (Bool-cases (contains_key (lowercase b.name) st.shares)) [
    | inl taken ↦ rw taken h
    | inr fresh ↦
        rw fresh (shares-Admitted S st.shares _ st.connections (insert-still S st.shares b fresh) h)
  ]

  pub add_share-Admitted :
      (s : Share S) (st : ServerState S) → Admitted S st → Admitted S (add_share S s st).1
  unfolding add_share
  add_share-Admitted s st h =
      early-keeps S (Admitted S) (validate_share_name s.name) st _ h
        (elim (Bool-cases (is_public s.mode && not (is_empty s.users))) [
          | inl mixed ↦ rw mixed h
          | inr fits ↦ rw fits (
              early-keeps S (Admitted S) (known_users (first_unknown s.users st.users)) st _ h
                (insert_bindings-Admitted (bindings_of_share S s) st h))
        ])

  pub remove_share-Admitted :
      (name : Str) (st : ServerState S) → Admitted S st → Admitted S (remove_share S name st).1
  unfolding remove_share forget_share close_trees_for_share
  remove_share-Admitted name st h =
      early-keeps S (Admitted S) (validate_share_name name) st _ h
        (elim (Bool-cases (contains_key (lowercase name) st.shares)) [
          | inl known ↦ rw known (
              on_live-Admitted S st.shares (λ c w. close_trees_for_share S c name w)
                (record st { shares = remove_share_entry S name st.shares })
                (close_matching_trees-Admitted S st.shares _ (of_share S name)
                  (remove-still S st.shares name))
                h)
          | inr unknown ↦ rw unknown h
        ])

  grant_on-Admitted :
      (share_name name : Str) (access : Access) (b : Option (ShareBindings S)) (st : ServerState S)
      → Admitted S st
      → Admitted S (grant_on S share_name name access b st).1
  unfolding grant_on
  grant_on-Admitted share_name name access none st h = h
  grant_on-Admitted share_name name access (some b) st h =
      elim (Bool-cases (is_public b.acl.mode)) [
        | inl for_all ↦ rw for_all h
        | inr closed ↦ rw closed (
            shares-Admitted S st.shares _ st.connections
              (with_user-still S st.shares share_name name access) h)
      ]

  pub grant_share_user-Admitted :
      (share_name name : Str) (access : Access) (st : ServerState S)
      → Admitted S st
      → Admitted S (grant_share_user S share_name name access st).1
  unfolding grant_share_user
  grant_share_user-Admitted share_name name access st h =
      early-keeps S (Admitted S) (validate_user_name name) st _ h (
        early-keeps S (Admitted S) (validate_share_name share_name) st _ h
          (elim (Bool-cases (contains_key name st.users)) [
            | inl known ↦
                rw known
                  (grant_on-Admitted share_name name access (find S share_name st.shares) st h)
            | inr unknown ↦ rw unknown h
          ]))

  revoke_on-Admitted :
      (share_name name : Str) (b : Option (ShareBindings S)) (st : ServerState S)
      → Admitted S st
      → Admitted S (revoke_on S share_name name b st).1
  unfolding revoke_on close_trees_for_user_share
  revoke_on-Admitted share_name name none st h = h
  revoke_on-Admitted share_name name (some b) st h =
      on_live-Admitted S st.shares (λ c w. close_trees_for_user_share S c name share_name w)
        (record st { shares = modify_acl S share_name (without_user name) st.shares })
        (close_matching_trees-Admitted S st.shares _ (of_user_share S name share_name)
          (without_user-still S st.shares share_name name))
        h

  -- revoke_share_user keeps every tree of a live connection admitted.
  pub revoke_share_user-Admitted :
      (share_name name : Str) (st : ServerState S)
      → Admitted S st
      → Admitted S (revoke_share_user S share_name name st).1
  unfolding revoke_share_user
  revoke_share_user-Admitted share_name name st h =
      early-keeps S (Admitted S) (validate_user_name name) st _ h (
        early-keeps S (Admitted S) (validate_share_name share_name) st _ h
          (revoke_on-Admitted share_name name (find S share_name st.shares) st h))

  set_mode_on-Admitted :
      (share_name : Str) (mode : ShareMode) (b : Option (ShareBindings S)) (st : ServerState S)
      → Admitted S st
      → Admitted S (set_mode_on S share_name mode b st).1
  unfolding set_mode_on close_trees_for_share
  set_mode_on-Admitted share_name mode none st h = h
  set_mode_on-Admitted share_name mode (some b) st h =
      elim (Bool-cases (is_public mode && not (is_empty b.acl.users))) [
        | inl mixed ↦ rw mixed h
        | inr fits ↦ elim (Bool-cases (mode_eq b.acl.mode mode)) [
          | inl same ↦ rw (fits, same) h
          | inr other ↦
              rw (fits, other)
                (on_live-Admitted S st.shares (λ c w. close_trees_for_share S c share_name w)
                  (record st { shares = modify_acl S share_name (with_mode mode) st.shares })
                  (close_matching_trees-Admitted S st.shares _ (of_share S share_name)
                    (with_mode-still S st.shares share_name mode))
                  h)
        ]
      ]

  -- set_share_mode keeps every tree of a live connection admitted under the share's new mode.
  pub set_share_mode-Admitted :
      (share_name : Str) (mode : ShareMode) (st : ServerState S)
      → Admitted S st
      → Admitted S (set_share_mode S share_name mode st).1
  unfolding set_share_mode
  set_share_mode-Admitted share_name mode st h =
      early-keeps S (Admitted S) (validate_share_name share_name) st _ h
        (set_mode_on-Admitted share_name mode (find S share_name st.shares) st h)
