-- ===== src/Server/Config.antt =====
-- server.rs: `ConfigHandle`, which changes users and shares while the server runs, and closes the
-- sessions and trees that a change takes the right from.
pub mod Laws
pub mod Consistent
use rust_smb_server.Prelude.{
  ℕ, if◌then◌else◌, Bool, true, false, ◌&&◌, not, is_empty, Option, none, some, List, [], ◌∷◌,
}
use rust_smb_server.Prelude.Assoc.{lookup, insert, remove, contains_key, modify}
use rust_smb_server.Prelude.Text.{Str, codes, lowercase, eq_ignore_ascii_case, encode_utf16}
use rust_smb_server.Backend.{Storage}
use rust_smb_server.Access.{Access, ShareMode, is_public, mode_eq, Users, ShareAcl, str_eq}
use rust_smb_server.Conn.State.{Connection}
use rust_smb_server.Conn.Close.{
  close_sessions_for_user, close_trees_for_share, close_trees_for_user_share,
}
use rust_smb_server.Server.State.{
  UserCreds, ConfigError, ConfigResult, ok, err, unknown_user, unknown_share, duplicate_share,
  public_mixed_with_users, reserved_user_name, reserved_share_name, empty_user_name, Share,
  ShareBindings, new_bindings, Shares, find, insert_share, remove_share_entry, modify_acl,
  modify_all_acls, ServerState,
}

unfoldable pub validate_user_name : Str → ConfigResult
validate_user_name name =
    if is_empty name
    then err empty_user_name
    else (if eq_ignore_ascii_case name (codes "anonymous")
        then err (reserved_user_name name)
        else ok)

unfoldable pub validate_share_name : Str → ConfigResult
validate_share_name name =
    if eq_ignore_ascii_case name (codes "IPC$") then err (reserved_share_name name) else ok

-- The first user of an ACL that the table does not know.
unfoldable pub first_unknown {ℓ} : {V : Type ℓ} → Users → List (Str × V) → Option Str
first_unknown [] table = none
first_unknown ((name, _) ∷ users) table =
    if contains_key name table then first_unknown users table else some name

abbrev pub known_users : Option Str → ConfigResult
known_users none = ok
known_users (some name) = err (unknown_user name)

-- Changes of an ACL.
abbrev pub without_user : Str → ShareAcl → ShareAcl
without_user name acl = record acl { users = remove name acl.users }

abbrev pub with_user : Str → Access → ShareAcl → ShareAcl
with_user name access acl = record acl { users = insert name access acl.users }

abbrev pub with_mode : ShareMode → ShareAcl → ShareAcl
with_mode mode acl = record acl { mode = mode }

module _ (S : Storage) where
  -- `r?` in front of the rest of an operation.
  abbrev pub early :
      ConfigResult → ServerState S → ConfigResult × ServerState S → ConfigResult × ServerState S
  early ok st rest = rest
  early (err e) st rest = (err e, st)

  -- `for conn in active_connections.live()`
  unfoldable pub each_live :
      (Connection S → S.World → ℕ × Connection S × S.World)
      → List (ℕ × Connection S)
      → S.World
      → List (ℕ × Connection S) × S.World
  each_live f [] w = ([], w)
  each_live f ((id, c) ∷ connections) w =
      let (_, c', w') = f c w in
      let (connections', w'') = each_live f connections w' in ((id, c') ∷ connections', w'')

  unfoldable pub on_live :
      (Connection S → S.World → ℕ × Connection S × S.World) → ServerState S → ServerState S
  unfolding each_live
  on_live f st =
      let (connections, w) = each_live f st.connections st.world in
      record st { connections = connections; world = w }

  -- The md4 crate hashes the password's UTF-16 bytes; `hash` is `UserCreds::from_password`.
  unfoldable pub add_user :
      (Str → UserCreds) → Str → Str → ServerState S → ConfigResult × ServerState S
  add_user hash name password st =
      early (validate_user_name name) st
        (ok, record st { users = insert name (hash password) st.users })

  -- What `remove_user` does once the user is known.
  unfoldable pub forget_user : Str → ServerState S → ServerState S
  unfolding on_live
  forget_user name st =
      on_live (λ c w. close_sessions_for_user S c name w)
        (record st {
          users = remove name st.users;
          shares = modify_all_acls S (without_user name) st.shares;
        })

  unfoldable pub remove_user : Str → ServerState S → ConfigResult × ServerState S
  remove_user name st = early (validate_user_name name) st (
      if contains_key name st.users
      then (ok, forget_user name st)
      else (err (unknown_user name), st))

  -- `shares.insert(binding)`
  unfoldable pub insert_bindings : ShareBindings S → ServerState S → ConfigResult × ServerState S
  insert_bindings b st =
      let (r, shares) = insert_share S b st.shares in (r, record st { shares = shares })

  abbrev pub bindings_of_share : Share S → ShareBindings S
  bindings_of_share s = new_bindings S s.name s.backend s.mode s.users false

  unfoldable pub add_share : Share S → ServerState S → ConfigResult × ServerState S
  add_share s st = early (validate_share_name s.name) st (
      if is_public s.mode && not (is_empty s.users)
      then (err (public_mixed_with_users s.name), st)
      else early (known_users (first_unknown s.users st.users)) st
          (insert_bindings (bindings_of_share s) st))

  unfoldable pub forget_share : Str → ServerState S → ServerState S
  forget_share name st =
      on_live (λ c w. close_trees_for_share S c name w)
        (record st { shares = remove_share_entry S name st.shares })

  unfoldable pub remove_share : Str → ServerState S → ConfigResult × ServerState S
  remove_share name st = early (validate_share_name name) st (
      if contains_key (lowercase name) st.shares
      then (ok, forget_share name st)
      else (err (unknown_share name), st))

  -- The operations on a share that must exist go on with the share that was found.
  unfoldable pub grant_on :
      Str → Str → Access → Option (ShareBindings S) → ServerState S → ConfigResult × ServerState S
  grant_on share_name user access none st = (err (unknown_share share_name), st)
  grant_on share_name user access (some b) st =
      if is_public b.acl.mode
      then (err (public_mixed_with_users b.name), st)
      else (ok, record st { shares = modify_acl S share_name (with_user user access) st.shares })

  unfoldable pub grant_share_user :
      Str → Str → Access → ServerState S → ConfigResult × ServerState S
  grant_share_user share_name user access st = early (validate_user_name user) st (
      early (validate_share_name share_name) st (
        if contains_key user st.users
        then grant_on share_name user access (find S share_name st.shares) st
        else (err (unknown_user user), st)))

  unfoldable pub revoke_on :
      Str → Str → Option (ShareBindings S) → ServerState S → ConfigResult × ServerState S
  revoke_on share_name user none st = (err (unknown_share share_name), st)
  revoke_on share_name user (some b) st = (
    ok,
    on_live (λ c w. close_trees_for_user_share S c user share_name w)
        (record st { shares = modify_acl S share_name (without_user user) st.shares }),
  )

  unfoldable pub revoke_share_user : Str → Str → ServerState S → ConfigResult × ServerState S
  revoke_share_user share_name user st = early (validate_user_name user) st (
      early (validate_share_name share_name) st
        (revoke_on share_name user (find S share_name st.shares) st))

  unfoldable pub set_mode_on :
      Str → ShareMode → Option (ShareBindings S) → ServerState S → ConfigResult × ServerState S
  set_mode_on share_name mode none st = (err (unknown_share share_name), st)
  set_mode_on share_name mode (some b) st =
      if is_public mode && not (is_empty b.acl.users)
      then (err (public_mixed_with_users b.name), st)
      else (if mode_eq b.acl.mode mode then (ok, st) else (
        ok,
        on_live (λ c w. close_trees_for_share S c share_name w)
            (record st { shares = modify_acl S share_name (with_mode mode) st.shares }),
      ))

  unfoldable pub set_share_mode : Str → ShareMode → ServerState S → ConfigResult × ServerState S
  set_share_mode share_name mode st =
      early (validate_share_name share_name) st
        (set_mode_on share_name mode (find S share_name st.shares) st)
