-- ===== src/Handlers/TreeConnect/Laws.antt =====
-- What a session gets of a TREE_CONNECT, and that all trees stay admitted.
use rust_smb_server.Prelude.{
  some-injective, ℕ, ◌==◌, ==-refl, ◌≡◌, refl, sym, ◌∙◌, ap, Bool, true, false, ◌||◌, Bool-cases,
  Option-cases, inl, inr, Option, none, some, All, arith,
}
use rust_smb_server.Prelude.Assoc.{
  lookup, modify, All-lookup, All-modify, All-insert, All-remove, lookup-modify, lookup-insert,
}
use rust_smb_server.Prelude.Text.{Str, lowercase, codes, eq_ignore_ascii_case}
use rust_smb_server.Backend.{Storage, backend_capabilities}
use rust_smb_server.Access.{Access, read, read_write, clamp_to, Identity, authorize, str_eq}
use rust_smb_server.Ntstatus
use rust_smb_server.Conn.State.{Session, Connection, nat_eq, new_tree, alloc_tree_id}
use rust_smb_server.Conn.Close.{close_tree, remove_tree_from_session}
use rust_smb_server.Conn.Close.Laws.{sessions-close_session, trees-remove_tree}
use rust_smb_server.Server.State.{ShareBindings, Shares, find, ipc, new_bindings, tree_share}
use rust_smb_server.Server.Admitted.{
  admitted_by, admitted_tree, AdmittedSession, AdmittedConnection,
}
use rust_smb_server.Handlers.{HandlerResult, ok, err, ok_or, bind_then, ok-injective, ok_or-eq-ok}
use rust_smb_server.Handlers.Shared.{
  lookup_session, lookup_session-ok, lookup_session_tree, InSession-lookup_session_tree,
}
use rust_smb_server.Handlers.TreeConnect.{
  extract_share_name, share_for, backend_cap, decide, add_tree, finish_connect, tree_connect,
  TreeConnectReply, maximal_access, disconnected, disconnect_from, tree_disconnect, logoff,
}

-- The shares stand under their lower-case names.
abbrev pub Named : (S : Storage) → Shares S → Type 0
Named S shares = All (λ p. p.0 ≡ lowercase p.1.name) shares

-- A tree of a read-only backend is for reading, and any other one for what the ACL says.
abbrev pub Capped : Bool → Option Access → Access → Type 0
Capped true allowed granted = granted ≡ read
Capped false allowed granted = allowed ≡ some granted

clamp_to-read : (access : Access) → clamp_to access read ≡ read
unfolding clamp_to
clamp_to-read read = refl
clamp_to-read read_write = refl

module _ (S : Storage) where
  -- What a decision rests on.
  pub record Granted (shares : Shares S) (c : Connection S) (sid : ℕ) (path : Str) (s : Session S)
      (b : ShareBindings S) (granted : Access) : Type 0 where
    pub name : Str
    pub asked : extract_share_name path ≡ some name
    pub session : lookup_session S c sid ≡ ok s
    pub share : share_for S shares name ≡ some b
    pub access : Access
    pub authorized : authorize b.acl.mode b.acl.users s.identity ≡ some access
    pub capped : granted ≡ backend_cap S b access

  decide-Granted :
      (shares : Shares S) (c : Connection S) (sid : ℕ) (path : Str) (s : Session S)
      (b : ShareBindings S) (granted : Access)
      → decide S shares c sid path ≡ ok (s, (b, granted))
      → Granted shares c sid path s b granted
  unfolding decide
  decide-Granted shares c sid path s b granted h =
      bind_then (ok_or Ntstatus.bad_network_name (extract_share_name path)) _ h (λ name asked h.
        bind_then (lookup_session S c sid) _ h (λ s' session h.
          bind_then (ok_or Ntstatus.bad_network_name (share_for S shares name)) _ h (λ b' share h.
            bind_then
              (ok_or Ntstatus.access_denied (authorize b'.acl.mode b'.acl.users s'.identity)) _ h
              (λ access authorized h.
                let all : (s', (b', backend_cap S b' access)) ≡ (s, (b, granted)) =
                  ok-injective h in
                let ss : s' ≡ s = ap (λ x. x.0) all in
                let bb : b' ≡ b = ap (λ x. x.1.0) all in
                record {
                  name = name;
                  asked = ok_or-eq-ok Ntstatus.bad_network_name (extract_share_name path) asked;
                  session = rw ss at session;
                  share =
                      rw bb at
                        (ok_or-eq-ok Ntstatus.bad_network_name (share_for S shares name) share);
                  access = access;
                  authorized =
                      rw (ss, bb) at
                        (ok_or-eq-ok Ntstatus.access_denied
                          (authorize b'.acl.mode b'.acl.users s'.identity) authorized);
                  capped = rw bb at (sym (ap (λ x. x.1.1) all));
                }))))

  -- A share that is found lets in the tree that is made for it.
  admitted_share :
      (shares : Shares S) (name : Str) (b : ShareBindings S) (identity : Identity)
      (access granted : Access) (id : ℕ)
      → Named S shares
      → share_for S shares name ≡ some b
      → authorize b.acl.mode b.acl.users identity ≡ some access
      → admitted_tree S shares identity (new_tree S id (tree_share S b) granted) ≡ true
  unfolding share_for admitted_tree admitted_by find new_tree ipc new_bindings
  admitted_share shares name b identity access granted id named share authorized =
      elim (Bool-cases (eq_ignore_ascii_case name (codes "IPC$"))) [
        | inl pipe ↦
            let found : some (ipc S) ≡ some b = rw pipe at share in
            let same : ipc S ≡ b = cc found in rw (← same) refl
        | inr disk ↦
            let found : lookup (lowercase name) shares ≡ some b = rw disk at share in
            let key : lowercase name ≡ lowercase b.name =
              All-lookup (λ p. p.0 ≡ lowercase p.1.name) (lowercase name) b shares named found in
            let found' : lookup (lowercase b.name) shares ≡ some b = rw key at found in
            rw (found', authorized) (or_true b.is_ipc)
      ]
    where
      or_true : (x : Bool) → (x || true) ≡ true
      or_true x = ground arith

  finish_connect-Admitted :
      (shares : Shares S) (c : Connection S) (sid id : ℕ) (path : Str)
      (d : HandlerResult (Session S × (ShareBindings S × Access)))
      → decide S shares c sid path ≡ d
      → Named S shares
      → AdmittedConnection S shares (id, c)
      → AdmittedConnection S shares (id, (finish_connect S c sid d).1)
  unfolding finish_connect add_tree alloc_tree_id
  finish_connect-Admitted shares c sid id path (err status) decided named h = h
  finish_connect-Admitted shares c sid id path (ok (s, (b, granted))) decided named h =
      let g : Granted shares c sid path s b granted =
        decide-Granted shares c sid path s b granted decided in
      let here : lookup sid c.sessions ≡ some s = (lookup_session-ok S c sid s g.session).1 in
      All-modify (AdmittedSession S shares) sid (add_tree S b granted) c.sessions
        (λ s' found admitted.
          let same : s ≡ s' = some-injective (sym here ∙ found) in
          All-insert (λ q. admitted_tree S shares s'.identity q.1 ≡ true) s'.next_tree_id
            (new_tree S s'.next_tree_id (tree_share S b) granted) s'.trees
            (rw same at (
              admitted_share shares g.name b s.identity g.access granted s'.next_tree_id named
                g.share g.authorized))
            admitted)
        h

  pub tree_connect-Admitted :
      (shares : Shares S) (c : Connection S) (sid id : ℕ) (path : Str)
      → Named S shares
      → AdmittedConnection S shares (id, c)
      → AdmittedConnection S shares (id, (tree_connect S shares c sid path).1)
  unfolding tree_connect
  tree_connect-Admitted shares c sid id path named h =
      finish_connect-Admitted shares c sid id path (decide S shares c sid path) refl named h

  close_tree-Admitted :
      (shares : Shares S) (c : Connection S) (sid id tid : ℕ) (w : S.World)
      → AdmittedConnection S shares (id, c)
      → AdmittedConnection S shares (id, (close_tree S c sid tid w).1)
  unfolding close_tree
  close_tree-Admitted shares c sid id tid w h = elim (Option-cases (lookup sid c.sessions)) [
    | inl missing ↦ rw (missing, close_tree) h
    | inr (s, found) ↦
        rw (found, close_tree)
          (All-modify (AdmittedSession S shares) sid (λ _. (remove_tree_from_session S s tid w).1)
            c.sessions
            (λ s' found' admitted.
              let same : s' ≡ s = some-injective (sym found' ∙ found) in
              let admitted' : AdmittedSession S shares (sid, s) = rw same at admitted in
              rw (trees-remove_tree S s tid w) (
                All-remove (λ q. admitted_tree S shares s.identity q.1 ≡ true) tid s.trees
                  admitted'))
            h)
  ]

  pub tree_disconnect-Admitted :
      (shares : Shares S) (c : Connection S) (sid id : ℕ) (tid : Option ℕ) (w : S.World)
      → AdmittedConnection S shares (id, c)
      → AdmittedConnection S shares (id, (tree_disconnect S c sid tid w).1)
  unfolding tree_disconnect disconnect_from disconnected
  tree_disconnect-Admitted shares c sid id none w h = h
  tree_disconnect-Admitted shares c sid id (some tid) w h = go (lookup_session S c sid)
    where
      go :
          (r : HandlerResult (Session S))
          → AdmittedConnection S shares (id, (disconnect_from S r c sid tid w).1)
      go (err status) = h
      go (ok s) = close_tree-Admitted shares c sid id tid w h

  pub logoff-Admitted :
      (shares : Shares S) (c : Connection S) (sid id : ℕ) (w : S.World)
      → AdmittedConnection S shares (id, c)
      → AdmittedConnection S shares (id, (logoff S c sid w).1)
  unfolding logoff
  logoff-Admitted shares c sid id w h = elim (Bool-cases (sid == 0)) [
    | inl zero_id ↦ rw zero_id h
    | inr given ↦
        rw (given, sessions-close_session S c sid w)
          (All-remove (AdmittedSession S shares) sid c.sessions h)
  ]

  backend_cap-Capped :
      (b : ShareBindings S) (allowed : Option Access) (access granted : Access)
      → allowed ≡ some access
      → granted ≡ backend_cap S b access
      → Capped (backend_capabilities S b.backend).is_read_only allowed granted
  unfolding backend_cap
  backend_cap-Capped b allowed access granted authorized capped =
      elim (Bool-cases (backend_capabilities S b.backend).is_read_only) [
        | inl e ↦ rw e (rw e at capped ∙ clamp_to-read access)
        | inr e ↦ rw e (authorized ∙ ap some (sym (rw e at capped)))
      ]

  -- The tree that a session got, and what it rests on.
  pub record Connected (shares : Shares S) (c : Connection S) (sid : ℕ) (path : Str)
      (r : TreeConnectReply) (c' : Connection S) : Type 0 where
    pub session : Session S
    pub share : ShareBindings S
    pub granted : Access
    pub decision : Granted shares c sid path session share granted
    pub tree :
        lookup_session_tree S c' sid (some r.tree_id)
        ≡ ok (new_tree S r.tree_id (tree_share S share) granted)
    pub capped :
        Capped
          (backend_capabilities S share.backend).is_read_only
          (authorize share.acl.mode share.acl.users session.identity)
          granted
    pub told : r.maximal_access ≡ maximal_access granted

  added_tree :
      (c : Connection S) (sid : ℕ) (s : Session S) (b : ShareBindings S) (granted : Access)
      → (sid == 0) ≡ false
      → lookup sid c.sessions ≡ some s
      → lookup_session_tree S
          (record c { sessions = modify sid (add_tree S b granted) c.sessions })
          sid
          (some s.next_tree_id)
        ≡ ok (new_tree S s.next_tree_id (tree_share S b) granted)
  unfolding add_tree alloc_tree_id
  added_tree c sid s b granted nonzero found =
      InSession-lookup_session_tree S
        (record c { sessions = modify sid (add_tree S b granted) c.sessions }) sid s.next_tree_id
        (new_tree S s.next_tree_id (tree_share S b) granted)
        (record {
          session = add_tree S b granted s;
          nonzero = nonzero;
          found =
              rw (lookup-modify sid sid (add_tree S b granted) c.sessions, ==-refl sid, found) refl;
          tree =
              rw
                (
                  lookup-insert s.next_tree_id s.next_tree_id
                      (new_tree S s.next_tree_id (tree_share S b) granted) s.trees,
                  ==-refl s.next_tree_id,
                )
                refl;
        })

  finish_connect-Connected :
      (shares : Shares S) (c : Connection S) (sid : ℕ) (path : Str)
      (d : HandlerResult (Session S × (ShareBindings S × Access))) (r : TreeConnectReply)
      → decide S shares c sid path ≡ d
      → (finish_connect S c sid d).0 ≡ ok r
      → Connected shares c sid path r (finish_connect S c sid d).1
  unfolding finish_connect
  finish_connect-Connected shares c sid path (err status) r decided h = cc
  finish_connect-Connected shares c sid path (ok (s, (b, granted))) r decided h =
      let g : Granted shares c sid path s b granted =
        decide-Granted shares c sid path s b granted decided in
      let id : s.next_tree_id ≡ r.tree_id =
        ap (λ (x : TreeConnectReply). x.tree_id) (ok-injective h) in
      let (nonzero, found) = lookup_session-ok S c sid s g.session in
      record {
        session = s;
        share = b;
        granted = granted;
        decision = g;
        tree = rw id at (added_tree c sid s b granted nonzero found);
        capped = backend_cap-Capped b _ g.access granted g.authorized g.capped;
        told = sym (ap (λ (x : TreeConnectReply). x.maximal_access) (ok-injective h));
      }

  -- Where TREE_CONNECT succeeds, the path names a share (or IPC$), the session exists and the
  -- ACL authorizes its identity; the tree id of the reply then leads in that session to a new
  -- tree of that share, whose access is read where the share's backend is read-only and
  -- otherwise what the ACL authorizes, and the maximal access in the reply is that of the
  -- tree.
  pub tree_connect-Connected :
      (shares : Shares S) (c : Connection S) (sid : ℕ) (path : Str) (r : TreeConnectReply)
      → (tree_connect S shares c sid path).0 ≡ ok r
      → Connected shares c sid path r (tree_connect S shares c sid path).1
  unfolding tree_connect
  tree_connect-Connected shares c sid path r h =
      finish_connect-Connected shares c sid path (decide S shares c sid path) r refl h
