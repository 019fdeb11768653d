-- ===== src/Server/Builder.antt =====
-- builder.rs: `SmbServerBuilder`, and the state that `build` starts the server with.
pub mod Table
pub mod Laws
use rust_smb_server.Prelude.{
  ℕ, ◌*◌, if◌then◌else◌, ◌&&◌, not, is_empty, Bool, true, false, Option, none, some, List, [], ◌∷◌,
  ◌++◌, map,
}
use rust_smb_server.Prelude.Assoc.{lookup, insert, contains_key, has}
use rust_smb_server.Prelude.Text.{Str, codes, lowercase, eq_ignore_ascii_case}
use rust_smb_server.Backend.{Storage, given}
use rust_smb_server.Access.{
  Access, ShareMode, public, public_read_only, authenticated_only, is_public, str_eq,
}
use rust_smb_server.Server.State.{
  UserCreds, ServerConfig, Share, ShareBindings, new_bindings, ServerState, new_state,
}
use rust_smb_server.Server.Config.{first_unknown, bindings_of_share}

pub data BuildError : Type 0 where
  missing_listen_addr empty_user_name : BuildError
  duplicate_share public_mixed_with_users double_public duplicate_user : Str → BuildError
  reserved_user_name : Str → BuildError
  unknown_user : Str → Str → BuildError

-- `Result<T, BuildError>`. `panicked` stands for the index of a map at a key that it has not.
pub data BuildResult {ℓ} (A : Type ℓ) : Type ℓ where
  ok : A → BuildResult A
  err : BuildError → BuildResult A
  panicked : BuildResult A

infixl 5 ◌>>=◌
abbrev pub ◌>>=◌ {ℓ κ} :
    {A : Type ℓ} {B : Type κ} → BuildResult A → (A → BuildResult B) → BuildResult B
ok a >>= f = f a
err e >>= f = err e
panicked >>= f = panicked

-- `if test { return Err(e) }`
abbrev pub fail_if : Bool → BuildError → BuildResult (Unit {0})
fail_if true e = err e
fail_if false e = ok tt

-- What the environment of the process answers: its host name, and a fresh random GUID.
pub record Environment : Type 0 where
  pub hostname : Option Str
  pub new_guid : List ℕ
  pub from_password : Str → UserCreds

unfoldable pub check_user_names : List Str → BuildResult (Unit {0})
check_user_names [] = ok tt
check_user_names (name ∷ names) = do
  _ ← fail_if (is_empty name) empty_user_name
  _ ← fail_if (eq_ignore_ascii_case name (codes "anonymous")) (reserved_user_name name)
  check_user_names names

abbrev pub known : Str → Option Str → BuildResult (Unit {0})
known share none = ok tt
known share (some name) = err (unknown_user share name)

-- `users[name]`
abbrev pub get {ℓ} : {A : Type ℓ} → Option A → BuildResult A
get none = panicked
get (some a) = ok a

-- The table of the users that are named, in their order.
unfoldable pub user_table :
    (Str → UserCreds)
    → List (Str × Str)
    → List Str
    → List (Str × UserCreds)
    → BuildResult (List (Str × UserCreds))
user_table hash passwords [] table = ok table
user_table hash passwords (name ∷ names) table = do
  password ← get (lookup name passwords)
  user_table hash passwords names (insert name (hash password) table)

unfoldable pub decide_netbios : Option Str → Option Str → Str
decide_netbios (some name) host = name
decide_netbios none (some host) = if is_empty host then codes "SMBSERVER" else host
decide_netbios none none = codes "SMBSERVER"

abbrev pub required_addr : Option Str → BuildResult Str
required_addr none = err missing_listen_addr
required_addr (some addr) = ok addr

abbrev pub guid_or : List ℕ → Option (List ℕ) → List ℕ
guid_or fresh none = fresh
guid_or fresh (some guid) = guid

module _ (S : Storage) where
  -- `Share::new`, and the methods that refine it.
  unfoldable pub new_share : Str → S.Backend → Share S
  new_share name backend = record {
    name = name;
    backend = given backend;
    mode = authenticated_only;
    users = [];
  }

  unfoldable pub make_public : Share S → Share S
  make_public s = record s { mode = public }

  unfoldable pub make_public_read_only : Share S → Share S
  make_public_read_only s = record s { mode = public_read_only }

  unfoldable pub share_user : Str → Access → Share S → Share S
  share_user name access s = record s { users = insert name access s.users }

  pub record Builder : Type 0 where
    pub listen_addr : Option Str
    pub users : List (Str × Str)
    pub user_order : List Str
    pub shares : List (Share S)
    pub netbios_name : Option Str
    pub max_read_size : ℕ
    pub max_write_size : ℕ
    pub server_guid : Option (List ℕ)

  unfoldable pub new_builder : Builder
  new_builder = record {
    listen_addr = none;
    users = [];
    user_order = [];
    shares = [];
    netbios_name = none;
    max_read_size = 1024 * 1024;
    max_write_size = 1024 * 1024;
    server_guid = none;
  }

  unfoldable pub builder_user : Str → Str → Builder → Builder
  builder_user name password b = record b {
    users = insert name password b.users;
    user_order = if contains_key name b.users then b.user_order else b.user_order ++ name ∷ [];
  }

  unfoldable pub builder_share : Share S → Builder → Builder
  builder_share s b = record b { shares = b.shares ++ s ∷ [] }

  -- The loop over the shares; `seen` has the lower-case names of those before.
  unfoldable pub check_shares :
      List (Str × Str) → List Str → List (Share S) → BuildResult (Unit {0})
  check_shares users seen [] = ok tt
  check_shares users seen (s ∷ shares) = do
    _ ← fail_if (has (lowercase s.name) seen) (duplicate_share s.name)
    _ ← fail_if (is_public s.mode && not (is_empty s.users)) (public_mixed_with_users s.name)
    _ ← known s.name (first_unknown s.users users)
    check_shares users (lowercase s.name ∷ seen) shares

  -- The address to listen on, and the state; `w` is the storage behind the shares.
  unfoldable pub build : Environment → Builder → S.World → BuildResult (Str × ServerState S)
  unfolding check_user_names check_shares user_table decide_netbios
  build env b w = do
    _ ← check_user_names b.user_order
    _ ← check_shares b.users [] b.shares
    addr ← required_addr b.listen_addr
    table ← user_table env.from_password b.users b.user_order []
    ok (
      addr,
      new_state S
          (record {
            netbios_name = decide_netbios b.netbios_name env.hostname;
            max_read_size = b.max_read_size;
            max_write_size = b.max_write_size;
            server_guid = guid_or env.new_guid b.server_guid;
          })
          table (map (bindings_of_share S) b.shares) w,
    )
