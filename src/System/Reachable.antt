-- ===== src/System/Reachable.antt =====
-- What holds in every state that a server comes to.
use rust_smb_server.Prelude.{ℕ, All-mono}
use rust_smb_server.Prelude.Assoc.{All-lookup, All-insert, All-remove}
use rust_smb_server.Backend.{Storage}
use rust_smb_server.Conn.State.{Connection, nat_eq, new_connection}
use rust_smb_server.Server.State.{ServerState, alloc_connection_id, insert_connection, unregister}
use rust_smb_server.Server.Config.Consistent.{
  Consistent, ConsistentEntry, add_user-Consistent, remove_user-Consistent, add_share-Consistent,
  remove_share-Consistent, grant_share_user-Consistent, revoke_share_user-Consistent,
  set_share_mode-Consistent,
}
use rust_smb_server.Server.Admitted.{Admitted, AdmittedConnection}
use rust_smb_server.Server.Admitted.Config.{
  add_user-Admitted, remove_user-Admitted, add_share-Admitted, remove_share-Admitted,
  grant_share_user-Admitted, revoke_share_user-Admitted, set_share_mode-Admitted,
}
use rust_smb_server.Handlers.TreeConnect.Laws.{
  Named, tree_connect-Admitted, tree_disconnect-Admitted, logoff-Admitted,
}
use rust_smb_server.Handlers.SessionSetup.{Ntlm}
use rust_smb_server.Handlers.SessionSetup.Laws.{first_round-Admitted, follow_up-Admitted}
use rust_smb_server.System.{
  accept, Request, first, second, connect, disconnect, log_off, Step, add_user, remove_user,
  add_share, remove_share, grant, revoke, set_mode, accepted, closed, request, Reaches, start_here,
  then_step,
}

module _ (S : Storage) (N : Ntlm) where
  -- The tables agree, and every tree belongs to somebody the share lets in.
  abbrev pub Sound : ServerState S → Type 0
  Sound st = Consistent S st × Admitted S st

  Named-shares : (st : ServerState S) → Consistent S st → Named S st.shares
  Named-shares st h = All-mono (ConsistentEntry S st.users) _ (λ p k. k.0) st.shares h.1

  Request-Admitted :
      {c : Connection S} {w : S.World} {st : ServerState S} {r : Connection S × S.World} (id : ℕ)
      → Request S N c w st r
      → Consistent S st
      → AdmittedConnection S st.shares (id, c)
      → AdmittedConnection S st.shares (id, r.0)
  Request-Admitted {c} {w} {st} id (first acceptor raw token) agree h =
      first_round-Admitted S N st.shares id acceptor raw token c h
  Request-Admitted {c} {w} {st} id (second sid token) agree h =
      follow_up-Admitted S N st.shares id st sid token c h
  Request-Admitted {c} {w} {st} id (connect sid path) agree h =
      tree_connect-Admitted S st.shares c sid id path (Named-shares st agree) h
  Request-Admitted {c} {w} {st} id (disconnect sid tid) agree h =
      tree_disconnect-Admitted S st.shares c sid id tid w h
  Request-Admitted {c} {w} {st} id (log_off sid) agree h = logoff-Admitted S st.shares c sid id w h

  pub Step-Sound : {st st' : ServerState S} → Step S N st st' → Sound st → Sound st'
  unfolding accept alloc_connection_id insert_connection unregister new_connection
  Step-Sound {st} (add_user hash name password) h = (
    add_user-Consistent S hash name password st h.0,
    add_user-Admitted S hash name password st h.1,
  )
  Step-Sound {st} (remove_user name) h =
      (remove_user-Consistent S name st h.0, remove_user-Admitted S name st h.1)
  Step-Sound {st} (add_share s) h = (add_share-Consistent S s st h.0, add_share-Admitted S s st h.1)
  Step-Sound {st} (remove_share name) h =
      (remove_share-Consistent S name st h.0, remove_share-Admitted S name st h.1)
  Step-Sound {st} (grant share name access) h = (
    grant_share_user-Consistent S share name access st h.0,
    grant_share_user-Admitted S share name access st h.1,
  )
  Step-Sound {st} (revoke share name) h = (
    revoke_share_user-Consistent S share name st h.0,
    revoke_share_user-Admitted S share name st h.1,
  )
  Step-Sound {st} (set_mode share mode) h =
      (set_share_mode-Consistent S share mode st h.0, set_share_mode-Admitted S share mode st h.1)
  Step-Sound {st} accepted h = (
    h.0,
    All-insert (AdmittedConnection S st.shares) st.next_connection_id _ st.connections tt h.1,
  )
  Step-Sound {st} (closed id) h =
      (h.0, All-remove (AdmittedConnection S st.shares) id st.connections h.1)
  Step-Sound {st} (request id {c} {r} found asked) h = (
    h.0,
    All-insert (AdmittedConnection S st.shares) id r.0 st.connections
        (Request-Admitted id asked h.0
          (All-lookup (AdmittedConnection S st.shares) id c st.connections h.1 found))
        h.1,
  )

  -- In every state that a server reaches from a sound one, the tables are consistent and every
  -- tree of a live connection is of IPC$ or of a share in the table whose ACL still admits the
  -- session's identity. Steps are the operations of ConfigHandle, new and closed connections,
  -- and the requests that log on, log off, connect a tree or disconnect it.
  pub Reaches-Sound : {start st : ServerState S} → Reaches S N start st → Sound start → Sound st
  Reaches-Sound start_here h = h
  Reaches-Sound (then_step before step) h = Step-Sound step (Reaches-Sound before h)
