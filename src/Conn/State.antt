-- ===== src/Conn/State.antt =====
-- conn/state.rs: the tables of a connection. A locked table behind an `Arc` is a value here: one
-- operation on a connection runs at a time, and every change is written back into the table.
use rust_smb_server.Prelude.{
  ℕ, ◌+◌, ◌==◌, ==_iff, ◌^◌, ◌%◌, Bool, Option, none, some, List, [], replicate,
}
use rust_smb_server.Prelude.Assoc.{Eq}
use rust_smb_server.Prelude.Text.{Str}
use rust_smb_server.Path.{SmbPath}
use rust_smb_server.Backend.{Storage, ShareBackend, FileInfo}
use rust_smb_server.Access.{Access, Identity}
use rust_smb_server.Proto.Dialect.{Dialect, SigningAlgo, hmac_sha256}
use rust_smb_server.Proto.FileId.{FileId}

-- Keys of the tables that are numbers.
instance abbrev pub nat_eq : Eq ℕ
nat_eq = record { beq = ◌==◌; beq_iff = ==_iff }

-- `NtlmServer` of proto/auth/ntlm.rs, between two rounds of SESSION_SETUP.
pub record NtlmServer : Type 0 where
  pub server_challenge : List ℕ
  pub target_name : Str
  pub nb_domain : Str
  pub nb_computer : Str
  pub dns_domain : Str
  pub dns_computer : Str
  pub timestamp : ℕ
  pub server_flags : ℕ
  pub negotiated_flags : ℕ
  pub negotiate_bytes : List ℕ
  pub challenge_bytes : List ℕ

pub record DirCursor : Type 0 where
  pub entries : List FileInfo
  pub next : ℕ
  pub pattern : Option Str

module _ (S : Storage) where
  pub record Open : Type 0 where
    pub file_id : FileId
    pub handle : Option S.Handle
    pub granted_access : Access
    pub last_path : SmbPath
    pub is_directory : Bool
    pub delete_on_close : Bool
    pub search_state : Option DirCursor

  -- What a tree keeps of its `ShareBindings`: the fields that never change.
  pub record TreeShare : Type 0 where
    pub name : Str
    pub backend : ShareBackend S
    pub is_ipc : Bool

  pub record TreeConnect : Type 0 where
    pub id : ℕ
    pub share : TreeShare
    pub granted_access : Access
    pub opens : List (FileId × Open)
    pub next_volatile : ℕ

  pub record Session : Type 0 where
    pub id : ℕ
    pub identity : Identity
    pub session_base_key : List ℕ
    pub signing_key : List ℕ
    pub signing_required : Bool
    pub trees : List (ℕ × TreeConnect)
    pub preauth_snapshot : Option (List ℕ)
    pub next_tree_id : ℕ

  pub record Connection : Type 0 where
    pub connection_id : ℕ
    pub server_guid : List ℕ
    pub client_guid : List ℕ
    pub dialect : Option Dialect
    pub signing_algo : SigningAlgo
    pub preauth : List ℕ
    pub max_read_size : ℕ
    pub max_write_size : ℕ
    pub sessions : List (ℕ × Session)
    pub pending_auths : List (ℕ × (NtlmServer × Bool))
    pub session_preauth : List (ℕ × List ℕ)
    pub next_session_id : ℕ

  unfoldable pub new_open : FileId → S.Handle → Access → SmbPath → Bool → Bool → Open
  new_open file_id handle granted_access last_path is_directory delete_on_close = record {
    file_id = file_id;
    handle = some handle;
    granted_access = granted_access;
    last_path = last_path;
    is_directory = is_directory;
    delete_on_close = delete_on_close;
    search_state = none;
  }

  unfoldable pub new_tree : ℕ → TreeShare → Access → TreeConnect
  new_tree id share granted_access = record {
    id = id;
    share = share;
    granted_access = granted_access;
    opens = [];
    next_volatile = 1;
  }

  unfoldable pub new_session : ℕ → Identity → List ℕ → List ℕ → Bool → Option (List ℕ) → Session
  new_session id identity base_key signing_key signing_required snapshot = record {
    id = id;
    identity = identity;
    session_base_key = base_key;
    signing_key = signing_key;
    signing_required = signing_required;
    trees = [];
    preauth_snapshot = snapshot;
    next_tree_id = 1;
  }

  unfoldable pub new_connection : ℕ → List ℕ → ℕ → ℕ → Connection
  new_connection connection_id server_guid max_read_size max_write_size = record {
    connection_id = connection_id;
    server_guid = server_guid;
    client_guid = replicate 16 0;
    dialect = none;
    signing_algo = hmac_sha256;
    preauth = replicate 64 0;
    max_read_size = max_read_size;
    max_write_size = max_write_size;
    sessions = [];
    pending_auths = [];
    session_preauth = [];
    next_session_id = 1;
  }

  -- `fetch_add` on the atomic counters wraps.
  unfoldable pub alloc_session_id : Connection → ℕ × Connection
  alloc_session_id c =
      (c.next_session_id, record c { next_session_id = (c.next_session_id + 1) % 2 ^ 64 })

  unfoldable pub alloc_tree_id : Session → ℕ × Session
  alloc_tree_id s = (s.next_tree_id, record s { next_tree_id = (s.next_tree_id + 1) % 2 ^ 32 })

  unfoldable pub alloc_file_id : TreeConnect → FileId × TreeConnect
  alloc_file_id t = (
    record { persistent = t.next_volatile; volatile = t.next_volatile },
    record t { next_volatile = (t.next_volatile + 1) % 2 ^ 64 },
  )
