-- ===== src/Witnesses.antt =====
-- The theorems at concrete inputs: a storage in memory, one server with two users and two shares,
-- and one client.
pub mod Codec
pub mod Wire
pub mod Contexts
pub mod FileIds
pub mod Start
use rust_smb_server.Prelude.{
  ℕ, ◌≡◌, ◌⊎◌, is_empty, refl, Bool, true, false, inl, inr, Option, none, some, List, [], ◌∷◌, ◌++◌,
  replicate, All, arith, if◌then◌else◌,
}
use rust_smb_server.Prelude.Assoc.{lookup, insert, remove, modify, keys_where, remove_keys}
use rust_smb_server.Prelude.Text.{
  Str, codes, lowercase, eq_ignore_ascii_case, to_ascii_lowercase, split, split_parts,
}
use rust_smb_server.Error.{SmbResult, SmbError, to_nt_status}
use rust_smb_server.Backend.{Storage, FileInfo, ShareBackend, given, backend_capabilities}
use rust_smb_server.Access.{
  Access, read, read_write, ShareMode, public, authenticated_only, Identity, user, anonymous,
  authorize, clamp_to, is_anonymous, is_user, str_eq,
}
use rust_smb_server.Ntstatus
use rust_smb_server.Path.{SmbPath, root}
use rust_smb_server.Proto.Dialect.{Dialect, smb302, hmac_sha256}
use rust_smb_server.Proto.FileId.{FileId}
use rust_smb_server.Conn.State.{
  nat_eq, NtlmServer, Open, TreeShare, TreeConnect, Session, Connection, new_connection,
  new_session, new_tree, new_open, alloc_tree_id,
}
use rust_smb_server.Conn.Close.Laws.{close_sessions_for_user-gone}
use rust_smb_server.Server.State.{
  UserCreds, ServerConfig, Share, ShareBindings, new_bindings, ServerState, find, ipc, lookup_user,
  anonymous_allowed, any_public,
}
use rust_smb_server.Server.Config.{validate_user_name}
use rust_smb_server.Server.Config.Consistent.{
  Consistent, add_share-Consistent, grant_share_user-Consistent, remove_user-Consistent,
}
use rust_smb_server.Server.Admitted.{Admitted, admitted_tree, admitted_by}
use rust_smb_server.Server.Admitted.Config.{set_share_mode-Admitted}
use rust_smb_server.Server.Admitted.Closed.{
  Removed, Revoked, remove_user-Removed, revoke_share_user-Revoked,
}
use rust_smb_server.Server.Config
use rust_smb_server.Handlers.{HandlerResult}
use rust_smb_server.Handlers.Shared.{lookup_session, lookup_session_tree}
use rust_smb_server.Handlers.TreeConnect.{
  extract_share_name, trim_end, last_part, share_for, backend_cap, decide, finish_connect,
  tree_connect, TreeConnectReply, maximal_access, share_type_disk, file_all_access,
}
use rust_smb_server.Handlers.TreeConnect.Laws.{Connected, tree_connect-Connected}
use rust_smb_server.Handlers.SessionSetup.{
  Ntlm, SetupReply, follow_up, with_acceptor, gate, establish, setup_key,
}
use rust_smb_server.Handlers.SessionSetup.Laws.{LoggedOn, follow_up-LoggedOn, follow_up-once}
use rust_smb_server.Handlers.Files.{
  write, close, run_close, tree_and_open, closing, stat_before_close,
}
use rust_smb_server.Handlers.Files.Laws.{Writable, write-cases, close-close}
use rust_smb_server.System.{after_request, Step, request, connect, Reaches, start_here, then_step}
use rust_smb_server.System.Reachable.{Sound, Reaches-Sound}
use rust_smb_server.Conn.Close.{close_sessions_for_user}

-- A storage of one file, on a backend that is read-only or not.
abbrev pub ram : Storage
ram = record {
  World = List ℕ;
  Backend = Bool;
  Handle = ℕ;
  open_path = λ b p o w. (SmbResult.ok 7, w);
  unlink = λ b p w. (SmbResult.ok tt, w);
  rename = λ b p q r w. (SmbResult.ok tt, w);
  capabilities =
      λ b. record { is_read_only = b; case_sensitive = true; supports_named_streams = false };
  read = λ h offset len w. (SmbResult.ok w, w);
  write = λ h offset bytes w. (SmbResult.ok 2, bytes);
  write_owned = λ h offset bytes w. (SmbResult.ok 2, bytes);
  flush = λ h w. (SmbResult.ok tt, w);
  stat = λ h w. (SmbResult.err SmbError.not_supported, w);
  set_times = λ h t w. (SmbResult.ok tt, w);
  truncate = λ h n w. (SmbResult.ok tt, w);
  list_dir = λ h p w. (SmbResult.ok [], w);
  close = λ h w. (SmbResult.ok tt, w);
}

abbrev pub alice : Str
alice = codes "alice"

abbrev docs_share : ShareBindings ram
docs_share = record {
  name = codes "Docs";
  backend = given false;
  acl = record { mode = authenticated_only; users = (alice, read_write) ∷ [] };
  is_ipc = false;
}

abbrev open_share : ShareBindings ram
open_share = record {
  name = codes "open";
  backend = given true;
  acl = record { mode = public; users = [] };
  is_ipc = false;
}

abbrev shares : List (Str × ShareBindings ram)
shares = (codes "docs", docs_share) ∷ (codes "open", open_share) ∷ []

abbrev a_file : FileId
a_file = record { persistent = 1; volatile = 1 }

abbrev an_open : Open ram
an_open = record {
  file_id = a_file;
  handle = some 7;
  granted_access = read_write;
  last_path = root;
  is_directory = false;
  delete_on_close = true;
  search_state = none;
}

abbrev a_tree : TreeConnect ram
a_tree = record {
  id = 1;
  share = record { name = codes "Docs"; backend = given false; is_ipc = false };
  granted_access = read_write;
  opens = (a_file, an_open) ∷ [];
  next_volatile = 2;
}

abbrev a_session : Session ram
a_session = record {
  id = 1;
  identity = user alice [];
  session_base_key = replicate 16 0;
  signing_key = replicate 16 0;
  signing_required = false;
  trees = (1, a_tree) ∷ [];
  preauth_snapshot = none;
  next_tree_id = 2;
}

abbrev an_acceptor : NtlmServer
an_acceptor = record {
  server_challenge = replicate 8 1;
  target_name = codes "SERVER";
  nb_domain = codes "SERVER";
  nb_computer = codes "SERVER";
  dns_domain = [];
  dns_computer = [];
  timestamp = 0;
  server_flags = 0;
  negotiated_flags = 0;
  negotiate_bytes = [];
  challenge_bytes = [];
}

abbrev a_connection : Connection ram
a_connection = record {
  connection_id = 1;
  server_guid = replicate 16 0;
  client_guid = replicate 16 0;
  dialect = some smb302;
  signing_algo = hmac_sha256;
  preauth = replicate 64 0;
  max_read_size = 1000;
  max_write_size = 1000;
  sessions = (1, a_session) ∷ [];
  pending_auths = (2, (an_acceptor, false)) ∷ [];
  session_preauth = [];
  next_session_id = 3;
}

abbrev pub a_state : ServerState ram
a_state = record {
  config = record {
    netbios_name = codes "SERVER";
    max_read_size = 1000;
    max_write_size = 1000;
    server_guid = replicate 16 0;
  };
  users = (alice, record { nt_hash = replicate 16 5 }) ∷ [];
  shares = shares;
  connections = (1, a_connection) ∷ [];
  next_connection_id = 2;
  world = 1 ∷ 2 ∷ [];
}

a_state-Consistent : Consistent ram a_state
unfolding validate_user_name eq_ignore_ascii_case lowercase to_ascii_lowercase lookup
a_state-Consistent = ((refl, tt), (((refl, (refl, (refl, tt))), ((refl, (refl, tt)), tt))))

a_state-Admitted : Admitted ram a_state
unfolding admitted_tree admitted_by find lookup lowercase to_ascii_lowercase authorize
a_state-Admitted = (((refl, tt), tt), tt)

-- A token is good when it is not empty.
abbrev ntlm : Ntlm
ntlm = record {
  step1_negotiate = λ a token. some a;
  challenge = λ a. (9 ∷ [], a);
  authenticate = λ a token users.
      if is_empty token
      then none
      else some (record { identity = user alice []; session_key = replicate 16 3 });
  signing_key_30 = λ key. key;
}

abbrev unc_path : Str
unc_path = codes "\\\\server\\DOCS"

abbrev connected_state : ServerState ram
connected_state =
    after_request ram ntlm 1 ((tree_connect ram shares a_connection 1 unc_path).1, 1 ∷ 2 ∷ [])
      a_state

Reaches-Sound_example : Sound ram ntlm (Config.remove_user ram alice connected_state).1
unfolding lookup
Reaches-Sound_example =
    Reaches-Sound ram ntlm
      (then_step (then_step start_here (request 1 refl (connect 1 unc_path)))
        (Step.remove_user alice))
      (a_state-Consistent, a_state-Admitted)

-- The share `open` has a read-only backend, so its tree is for reading.
abbrev open_path : Str
open_path = codes "\\\\server\\OPEN\\"

abbrev a_reply : TreeConnectReply
a_reply = record { tree_id = 2; share_type = share_type_disk; maximal_access = 0x0012_00a9 }

tree_connect-Connected_example :
    Connected ram shares a_connection 1 open_path a_reply
      (tree_connect ram shares a_connection 1 open_path).1
unfolding tree_connect decide finish_connect extract_share_name trim_end last_part split split_parts
    lookup_session lookup share_for find eq_ignore_ascii_case lowercase to_ascii_lowercase authorize
    backend_cap backend_capabilities clamp_to maximal_access
tree_connect-Connected_example =
    tree_connect-Connected ram shares a_connection 1 open_path a_reply refl

write-cases_example :
    ((status : ℕ) × (write ram a_connection 1 (some 1) a_file 0 2 (5 ∷ 6 ∷ []) (1 ∷ [])
        ≡ (HandlerResult.err status, 1 ∷ [])))
    ⊎ ((h : ℕ) × Writable ram a_connection 1 (some 1) a_file 2 h
        × (write ram a_connection 1 (some 1) a_file 0 2 (5 ∷ 6 ∷ []) (1 ∷ [])
            ≡ (HandlerResult.ok 2, 5 ∷ 6 ∷ [])))
write-cases_example = write-cases ram a_connection 1 (some 1) a_file 0 2 (5 ∷ 6 ∷ []) (1 ∷ [])

close-close_example :
    (close ram (close ram a_connection 1 (some 1) a_file 0 (1 ∷ [])).1 1 (some 1) a_file 1 []).0
    ≡ HandlerResult.err Ntstatus.file_closed
unfolding close run_close tree_and_open closing stat_before_close lookup_session_tree lookup_session
    lookup
close-close_example = close-close ram a_connection 1 1 a_file 0 1 (1 ∷ []) [] none refl

abbrev setup_reply : SetupReply
setup_reply = record {
  session_id = 2;
  session_flags = 0;
  raw_form = false;
  skip_signing = false;
  take_preauth_snapshot = false;
}

follow_up-LoggedOn_example : LoggedOn ram ntlm a_state 2 (4 ∷ []) a_connection setup_reply
unfolding follow_up with_acceptor gate establish setup_key is_anonymous lookup
follow_up-LoggedOn_example =
    follow_up-LoggedOn ram ntlm a_state 2 (4 ∷ []) a_connection setup_reply refl

follow_up-once_example :
    lookup 2 (follow_up ram ntlm a_state 2 [] a_connection).1.pending_auths ≡ none
follow_up-once_example = follow_up-once ram ntlm a_state 2 [] a_connection refl

revoke_share_user-Revoked_example :
    Revoked ram
      (codes "DOCS")
      alice
      a_state
      (Config.revoke_share_user ram (codes "DOCS") alice a_state)
revoke_share_user-Revoked_example =
    revoke_share_user-Revoked ram (codes "DOCS") alice a_state a_state-Admitted

remove_user-Removed_example : Removed ram alice a_state (Config.remove_user ram alice a_state)
remove_user-Removed_example = remove_user-Removed ram alice a_state a_state-Admitted

set_share_mode-Admitted_example :
    Admitted ram (Config.set_share_mode ram (codes "open") authenticated_only a_state).1
set_share_mode-Admitted_example =
    set_share_mode-Admitted ram (codes "open") authenticated_only a_state a_state-Admitted

abbrev new_share : Share ram
new_share = record {
  name = codes "New";
  backend = given true;
  mode = authenticated_only;
  users = (alice, read) ∷ [];
}

add_share-Consistent_example : Consistent ram (Config.add_share ram new_share a_state).1
add_share-Consistent_example = add_share-Consistent ram new_share a_state a_state-Consistent

grant_share_user-Consistent_example :
    Consistent ram (Config.grant_share_user ram (codes "docs") alice read a_state).1
grant_share_user-Consistent_example =
    grant_share_user-Consistent ram (codes "docs") alice read a_state a_state-Consistent

remove_user-Consistent_example : Consistent ram (Config.remove_user ram alice a_state).1
remove_user-Consistent_example = remove_user-Consistent ram alice a_state a_state-Consistent

close_sessions_for_user-gone_example :
    All
      (λ p. is_user p.1.identity alice ≡ false)
      (close_sessions_for_user ram a_connection alice []).1.sessions
close_sessions_for_user-gone_example = close_sessions_for_user-gone ram a_connection alice []
