-- ===== src/Handlers/SessionSetup/Laws.antt =====
-- What a logon leaves behind.
use rust_smb_server.Prelude.{
  ℕ, ◌==◌, ==-refl, ◌≡◌, refl, ap, sym, ◌&&◌, ◌||◌, not, Bool, true, false, Bool-cases, inl, inr,
  Option, none, some, List, arith,
}
use rust_smb_server.Prelude.Assoc.{lookup, remove, lookup-remove, All-insert}
use rust_smb_server.Backend.{Storage}
use rust_smb_server.Access.{is_anonymous}
use rust_smb_server.Ntstatus
use rust_smb_server.Proto.Dialect.{Dialect}
use rust_smb_server.Conn.State.{NtlmServer, Connection, nat_eq, new_session, alloc_session_id}
use rust_smb_server.Server.State.{ServerState, lookup_user, anonymous_allowed, Shares}
use rust_smb_server.Server.Admitted.{AdmittedSession, AdmittedConnection}
use rust_smb_server.Handlers.{
  HandlerResult, ok, err, ok_or, bind_then, ok-injective, ok_or-eq-ok, refuse_if, refuse_if-eq-ok,
}
use rust_smb_server.Handlers.SessionSetup.{
  Ntlm, AuthOutcome, SetupReply, challenged, first_round, setup_key, gate, establish, with_acceptor,
  follow_up,
}

module _ (S : Storage) (N : Ntlm) where
  challenged-sessions :
      (sid : ℕ) (raw : Bool) (o : Option NtlmServer) (c : Connection S)
      → (challenged S N sid raw o c).1.sessions ≡ c.sessions
  unfolding challenged
  challenged-sessions sid raw none c = refl
  challenged-sessions sid raw (some a) c = refl

  first_round-sessions :
      (acceptor : NtlmServer) (raw : Bool) (token : List ℕ) (c : Connection S)
      → (first_round S N acceptor raw token c).1.sessions ≡ c.sessions
  unfolding first_round alloc_session_id
  first_round-sessions acceptor raw token c =
      challenged-sessions c.next_session_id raw (N.step1_negotiate acceptor token)
        (alloc_session_id S c).1

  pub first_round-Admitted :
      (shares : Shares S) (id : ℕ) (acceptor : NtlmServer) (raw : Bool) (token : List ℕ)
      (c : Connection S)
      → AdmittedConnection S shares (id, c)
      → AdmittedConnection S shares (id, (first_round S N acceptor raw token c).1)
  first_round-Admitted shares id acceptor raw token c h =
      rw (first_round-sessions acceptor raw token c) h

  establish-Admitted :
      (shares : Shares S) (id sid : ℕ) (raw : Bool) (g : HandlerResult (AuthOutcome × List ℕ))
      (c : Connection S)
      → AdmittedConnection S shares (id, c)
      → AdmittedConnection S shares (id, (establish S N sid raw g c).1)
  unfolding establish new_session
  establish-Admitted shares id sid raw (err status) c h = h
  establish-Admitted shares id sid raw (ok (o, key)) c h =
      All-insert (AdmittedSession S shares) sid
        (new_session S sid o.identity o.session_key key false none) c.sessions tt h

  with_acceptor-Admitted :
      (shares : Shares S) (id : ℕ) (st : ServerState S) (sid : ℕ) (token : List ℕ)
      (o : Option (NtlmServer × Bool)) (c : Connection S)
      → AdmittedConnection S shares (id, c)
      → AdmittedConnection S shares (id, (with_acceptor S N st sid token o c).1)
  unfolding with_acceptor
  with_acceptor-Admitted shares id st sid token none c h = h
  with_acceptor-Admitted shares id st sid token (some (acceptor, raw)) c h =
      establish-Admitted shares id sid raw _
        (record c { pending_auths = remove sid c.pending_auths }) h

  pub follow_up-Admitted :
      (shares : Shares S) (id : ℕ) (st : ServerState S) (sid : ℕ) (token : List ℕ)
      (c : Connection S)
      → AdmittedConnection S shares (id, c)
      → AdmittedConnection S shares (id, (follow_up S N st sid token c).1)
  unfolding follow_up
  follow_up-Admitted shares id st sid token c h = elim (Bool-cases (sid == 0)) [
    | inl zero_id ↦ rw zero_id h
    | inr given ↦
        rw given (with_acceptor-Admitted shares id st sid token (lookup sid c.pending_auths) c h)
  ]

  establish-pending :
      (sid : ℕ) (raw : Bool) (g : HandlerResult (AuthOutcome × List ℕ)) (c : Connection S)
      → (establish S N sid raw g c).1.pending_auths ≡ c.pending_auths
  unfolding establish
  establish-pending sid raw (err status) c = refl
  establish-pending sid raw (ok (o, key)) c = refl

  with_acceptor-once :
      (st : ServerState S) (sid : ℕ) (token : List ℕ) (o : Option (NtlmServer × Bool))
      (c : Connection S)
      → lookup sid c.pending_auths ≡ o
      → lookup sid (with_acceptor S N st sid token o c).1.pending_auths ≡ none
  unfolding with_acceptor
  with_acceptor-once st sid token none c h = h
  with_acceptor-once st sid token (some (acceptor, raw)) c h =
      rw
        (
          establish-pending sid raw (gate S N st c.dialect (N.authenticate acceptor token _))
              (record c { pending_auths = remove sid c.pending_auths }),
          lookup-remove sid sid c.pending_auths,
          ==-refl sid,
        )
        refl

  -- After the second round of SESSION_SETUP for a session id other than 0, whatever came of
  -- it, no state machine is pending for the id: a challenge is answered at most once.
  pub follow_up-once :
      (st : ServerState S) (sid : ℕ) (token : List ℕ) (c : Connection S)
      → (sid == 0) ≡ false
      → lookup sid (follow_up S N st sid token c).1.pending_auths ≡ none
  unfolding follow_up
  follow_up-once st sid token c given =
      rw given (with_acceptor-once st sid token (lookup sid c.pending_auths) c refl)

  -- What a logon rests on.
  pub record LoggedOn (st : ServerState S) (sid : ℕ) (token : List ℕ) (c : Connection S)
      (r : SetupReply) : Type 0 where
    pub acceptor : NtlmServer
    pub raw : Bool
    pub outcome : AuthOutcome
    pub pending : lookup sid c.pending_auths ≡ some (acceptor, raw)
    pub authentic : N.authenticate acceptor token (λ name. lookup_user S name st) ≡ some outcome
    pub allowed : (not (is_anonymous outcome.identity) || anonymous_allowed S st) ≡ true
    pub guest : r.skip_signing ≡ is_anonymous outcome.identity

  not_refused : (a b : Bool) → (a && not b) ≡ false → (not a || b) ≡ true
  not_refused a b h = ground arith

  gate-allowed :
      (st : ServerState S) (dialect : Option Dialect) (o : Option AuthOutcome)
      (p : AuthOutcome × List ℕ)
      → gate S N st dialect o ≡ ok p
      → (o ≡ some p.0) × ((not (is_anonymous p.0.identity) || anonymous_allowed S st) ≡ true)
  unfolding gate
  gate-allowed st dialect o p h = bind_then (ok_or Ntstatus.logon_failure o) _ h (λ a found h.
      bind_then
        (refuse_if (is_anonymous a.identity && not (anonymous_allowed S st)) Ntstatus.logon_failure)
        _ h
        (λ _ passed h. bind_then (setup_key S N dialect a.session_key) _ h (λ key keyed h.
          let same : (a, key) ≡ p = ok-injective h in
          let left : a ≡ p.0 = ap (λ x. x.0) same in
          let test : (is_anonymous a.identity && not (anonymous_allowed S st)) ≡ false =
            refuse_if-eq-ok _ Ntstatus.logon_failure passed in
          (
            rw left at (ok_or-eq-ok Ntstatus.logon_failure o found),
            rw left at (not_refused (is_anonymous a.identity) (anonymous_allowed S st) test),
          ))))

  establish-ok :
      (sid : ℕ) (raw : Bool) (g : HandlerResult (AuthOutcome × List ℕ)) (c : Connection S)
      (r : SetupReply)
      → (establish S N sid raw g c).0 ≡ ok r
      → (p : AuthOutcome × List ℕ) × (g ≡ ok p) × (r.skip_signing ≡ is_anonymous p.0.identity)
  unfolding establish
  establish-ok sid raw (err status) c r h = cc
  establish-ok sid raw (ok p) c r h =
      (p, refl, ap (λ (x : SetupReply). x.skip_signing) (sym (ok-injective h)))

  with_acceptor-LoggedOn :
      (st : ServerState S) (sid : ℕ) (token : List ℕ) (o : Option (NtlmServer × Bool))
      (c : Connection S) (r : SetupReply)
      → lookup sid c.pending_auths ≡ o
      → (with_acceptor S N st sid token o c).0 ≡ ok r
      → LoggedOn st sid token c r
  unfolding with_acceptor
  with_acceptor-LoggedOn st sid token none c r pending h = cc
  with_acceptor-LoggedOn st sid token (some (acceptor, raw)) c r pending h =
      let g : HandlerResult (AuthOutcome × List ℕ) =
        gate S N st c.dialect (N.authenticate acceptor token (λ name. lookup_user S name st)) in
      let (p, passed, signing) =
        establish-ok sid raw g (record c { pending_auths = remove sid c.pending_auths }) r h in
      let (authentic, allowed) =
        gate-allowed st c.dialect (N.authenticate acceptor token (λ name. lookup_user S name st)) p
          passed in
      record {
        acceptor = acceptor;
        raw = raw;
        outcome = p.0;
        pending = pending;
        authentic = authentic;
        allowed = allowed;
        guest = signing;
      }

  -- Where the second round of SESSION_SETUP succeeds, a state machine was pending for the
  -- session id and accepted the token against the user table; an anonymous identity was let in
  -- only while a share is public; and the response is left unsigned exactly for an anonymous
  -- identity.
  pub follow_up-LoggedOn :
      (st : ServerState S) (sid : ℕ) (token : List ℕ) (c : Connection S) (r : SetupReply)
      → (follow_up S N st sid token c).0 ≡ ok r
      → LoggedOn st sid token c r
  unfolding follow_up
  follow_up-LoggedOn st sid token c r h = elim (Bool-cases (sid == 0)) [
    | inl zero_id ↦ let no : err Ntstatus.invalid_parameter ≡ ok r = rw zero_id at h in cc no
    | inr given ↦
        with_acceptor-LoggedOn st sid token (lookup sid c.pending_auths) c r refl (rw given at h)
  ]
