-- ===== src/System.antt =====
-- The server as a step relation: connections come and go, and one operation of `ConfigHandle` or one
-- request of a client is done at a time (server.rs, conn/mod.rs, handlers/).
pub mod Reachable
use rust_smb_server.Prelude.{ℕ, Bool, Option, none, some, List, [], ◌∷◌, ◌≡◌}
use rust_smb_server.Prelude.Assoc.{lookup, modify, insert}
use rust_smb_server.Prelude.Text.{Str}
use rust_smb_server.Backend.{Storage}
use rust_smb_server.Access.{Access, ShareMode}
use rust_smb_server.Conn.State.{NtlmServer, Connection, nat_eq, new_connection}
use rust_smb_server.Server.State.{
  UserCreds, ServerConfig, Share, ShareBindings, ServerState, new_state, alloc_connection_id,
  insert_connection, unregister,
}
use rust_smb_server.Server.Config
use rust_smb_server.Handlers.TreeConnect.{tree_connect, tree_disconnect, logoff}
use rust_smb_server.Handlers.SessionSetup.{Ntlm, first_round, follow_up}

module _ (S : Storage) (N : Ntlm) where
  -- A request on the connection `id`, which leaves the connection `c` and the storage `w`.
  abbrev pub after_request : ℕ → Connection S × S.World → ServerState S → ServerState S
  after_request id (c, w) st = record st { connections = insert id c st.connections; world = w }

  -- A socket is accepted.
  unfoldable pub accept : ServerState S → ServerState S
  unfolding alloc_connection_id insert_connection
  accept st =
      let (id, st') = alloc_connection_id S st in
      insert_connection S id
        (new_connection S id st'.config.server_guid st'.config.max_read_size
          st'.config.max_write_size)
        st'

  pub data Request : Connection S → S.World → ServerState S → Connection S × S.World → Type 0 where
    first :
        {c : Connection S} {w : S.World} {st : ServerState S} (acceptor : NtlmServer) (raw : Bool)
        (token : List ℕ)
        → Request c w st ((first_round S N acceptor raw token c).1, w)
    second :
        {c : Connection S} {w : S.World} {st : ServerState S} (sid : ℕ) (token : List ℕ)
        → Request c w st ((follow_up S N st sid token c).1, w)
    connect :
        {c : Connection S} {w : S.World} {st : ServerState S} (sid : ℕ) (path : Str)
        → Request c w st ((tree_connect S st.shares c sid path).1, w)
    disconnect :
        {c : Connection S} {w : S.World} {st : ServerState S} (sid : ℕ) (tid : Option ℕ)
        → Request c w st ((tree_disconnect S c sid tid w).1, (tree_disconnect S c sid tid w).2)
    log_off :
        {c : Connection S} {w : S.World} {st : ServerState S} (sid : ℕ)
        → Request c w st ((logoff S c sid w).1, (logoff S c sid w).2)

  pub data Step (st : ServerState S) : ServerState S → Type 0 where
    add_user :
        (hash : Str → UserCreds) (name password : Str)
        → Step st (Config.add_user S hash name password st).1
    remove_user : (name : Str) → Step st (Config.remove_user S name st).1
    add_share : (s : Share S) → Step st (Config.add_share S s st).1
    remove_share : (name : Str) → Step st (Config.remove_share S name st).1
    grant :
        (share name : Str) (access : Access)
        → Step st (Config.grant_share_user S share name access st).1
    revoke : (share name : Str) → Step st (Config.revoke_share_user S share name st).1
    set_mode : (share : Str) (mode : ShareMode) → Step st (Config.set_share_mode S share mode st).1
    accepted : Step st (accept st)
    closed : (id : ℕ) → Step st (unregister S id st)
    request :
        (id : ℕ) {c : Connection S} {r : Connection S × S.World}
        → lookup id st.connections ≡ some c
        → Request c st.world st r
        → Step st (after_request id r st)

  -- What a server comes to from a state.
  pub data Reaches (start : ServerState S) : ServerState S → Type 0 where
    start_here : Reaches start start
    then_step : {st st' : ServerState S} → Reaches start st → Step st st' → Reaches start st'
