-- ===== src/Server/State.antt =====
-- server.rs: the shares, the users and the live connections. A lock around a table is not a part of
-- the model: one operation runs at a time. `world` is the storage behind all backends.
use rust_smb_server.Prelude.{
  ℕ, ◌+◌, ◌%◌, ◌^◌, if◌then◌else◌, Bool, true, false, ◌||◌, Option, List, [], ◌∷◌,
}
use rust_smb_server.Prelude.Assoc.{lookup, insert, remove, contains_key, modify}
use rust_smb_server.Prelude.Text.{Str, codes, lowercase}
use rust_smb_server.Backend.{Storage, ShareBackend, not_supported_backend}
use rust_smb_server.Access.{ShareMode, public_read_only, is_public, Users, ShareAcl, str_eq}
use rust_smb_server.Conn.State.{TreeShare, Connection, nat_eq}

-- `UserCreds` of proto/auth/ntlm.rs.
pub record UserCreds : Type 0 where
  pub nt_hash : List ℕ

-- `ServerConfig`, without the address to listen on.
pub record ServerConfig : Type 0 where
  pub netbios_name : Str
  pub max_read_size : ℕ
  pub max_write_size : ℕ
  pub server_guid : List ℕ

-- The failures of a change of the configuration.
pub data ConfigError : Type 0 where
  unknown_user unknown_share duplicate_share public_mixed_with_users : Str → ConfigError
  reserved_user_name reserved_share_name : Str → ConfigError
  empty_user_name : ConfigError

-- `Result<(), ConfigError>`
pub data ConfigResult : Type 0 where
  ok : ConfigResult
  err : ConfigError → ConfigResult

module _ (S : Storage) where
  -- `Share` of builder.rs.
  pub record Share : Type 0 where
    pub name : Str
    pub backend : ShareBackend S
    pub mode : ShareMode
    pub users : Users

  pub record ShareBindings : Type 0 where
    pub name : Str
    pub backend : ShareBackend S
    pub acl : ShareAcl
    pub is_ipc : Bool

  unfoldable pub new_bindings : Str → ShareBackend S → ShareMode → Users → Bool → ShareBindings
  new_bindings name backend mode users is_ipc = record {
    name = name;
    backend = backend;
    acl = record { mode = mode; users = users };
    is_ipc = is_ipc;
  }

  unfoldable pub ipc : ShareBindings
  unfolding new_bindings
  ipc = new_bindings (codes "IPC$") not_supported_backend public_read_only [] true

  -- What a tree keeps of the share.
  abbrev pub tree_share : ShareBindings → TreeShare S
  tree_share b = record { name = b.name; backend = b.backend; is_ipc = b.is_ipc }

  -- `ServerShares::by_name`
  abbrev pub Shares : Type 0
  Shares = List (Str × ShareBindings)

  unfoldable pub add_bindings : List ShareBindings → Shares → Shares
  add_bindings [] by_name = by_name
  add_bindings (b ∷ others) by_name = add_bindings others (insert (lowercase b.name) b by_name)

  unfoldable pub new_shares : List ShareBindings → Shares
  unfolding add_bindings
  new_shares shares = add_bindings shares []

  unfoldable pub find : Str → Shares → Option ShareBindings
  find name by_name = lookup (lowercase name) by_name

  unfoldable pub insert_share : ShareBindings → Shares → ConfigResult × Shares
  insert_share b by_name =
      if contains_key (lowercase b.name) by_name
      then (err (duplicate_share b.name), by_name)
      else (ok, insert (lowercase b.name) b by_name)

  unfoldable pub remove_share_entry : Str → Shares → Shares
  remove_share_entry name by_name = remove (lowercase name) by_name

  -- A change of an ACL through its lock.
  abbrev pub with_acl : (ShareAcl → ShareAcl) → ShareBindings → ShareBindings
  with_acl f b = record b { acl = f b.acl }

  unfoldable pub modify_acl : Str → (ShareAcl → ShareAcl) → Shares → Shares
  modify_acl name f by_name = modify (lowercase name) (with_acl f) by_name

  unfoldable pub modify_all_acls : (ShareAcl → ShareAcl) → Shares → Shares
  modify_all_acls f [] = []
  modify_all_acls f ((key, b) ∷ by_name) = (key, with_acl f b) ∷ modify_all_acls f by_name

  -- `connections` holds the connections whose `Weak` can still be upgraded.
  pub record ServerState : Type 0 where
    pub config : ServerConfig
    pub users : List (Str × UserCreds)
    pub shares : Shares
    pub connections : List (ℕ × Connection S)
    pub next_connection_id : ℕ
    pub world : S.World

  unfoldable pub new_state :
      ServerConfig → List (Str × UserCreds) → List ShareBindings → S.World → ServerState
  unfolding new_shares
  new_state config users shares w = record {
    config = config;
    users = users;
    shares = new_shares shares;
    connections = [];
    next_connection_id = 1;
    world = w;
  }

  -- `ActiveConnections`: a connection enters the table, and leaves it.
  unfoldable pub alloc_connection_id : ServerState → ℕ × ServerState
  alloc_connection_id st = (
    st.next_connection_id,
    record st { next_connection_id = (st.next_connection_id + 1) % 2 ^ 64 },
  )

  unfoldable pub insert_connection : ℕ → Connection S → ServerState → ServerState
  insert_connection id c st = record st { connections = insert id c st.connections }

  unfoldable pub unregister : ℕ → ServerState → ServerState
  unregister id st = record st { connections = remove id st.connections }

  unfoldable pub lookup_user : Str → ServerState → Option UserCreds
  lookup_user name st = lookup name st.users

  unfoldable pub any_public : Shares → Bool
  any_public [] = false
  any_public ((_, b) ∷ by_name) = is_public b.acl.mode || any_public by_name

  unfoldable pub anonymous_allowed : ServerState → Bool
  anonymous_allowed st = any_public st.shares
