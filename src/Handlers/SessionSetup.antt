-- ===== src/Handlers/SessionSetup.antt =====
-- handlers/session_setup.rs: the rounds of a logon, from the NTLM token on. Checking the token
-- (`NtlmServer::authenticate`) and the key derivation are arguments.
pub mod Laws
use rust_smb_server.Prelude.{
  ℕ, ◌==◌, if◌then◌else◌, ◌&&◌, not, Bool, true, false, Option, none, some, List, [], ◌∷◌,
  replicate,
}
use rust_smb_server.Prelude.Assoc.{lookup, insert, remove}
use rust_smb_server.Prelude.Text.{Str}
use rust_smb_server.Backend.{Storage}
use rust_smb_server.Access.{Identity, is_anonymous, str_eq}
use rust_smb_server.Ntstatus
use rust_smb_server.Proto.Dialect.{Dialect, smb311}
use rust_smb_server.Conn.State.{
  NtlmServer, Session, Connection, nat_eq, new_session, alloc_session_id,
}
use rust_smb_server.Server.State.{UserCreds, ServerState, lookup_user, anonymous_allowed}
use rust_smb_server.Handlers.{HandlerResult, ok, err, ◌>>=◌, ok_or, refuse_if}

pub record AuthOutcome : Type 0 where
  pub identity : Identity
  pub session_key : List ℕ

-- What the code under proto/ computes for a logon.
pub record Ntlm : Type 0 where
  pub step1_negotiate : NtlmServer → List ℕ → Option NtlmServer
  pub challenge : NtlmServer → List ℕ × NtlmServer
  pub authenticate : NtlmServer → List ℕ → (Str → Option UserCreds) → Option AuthOutcome
  pub signing_key_30 : List ℕ → List ℕ

abbrev pub flag_is_guest : ℕ
flag_is_guest = 1

-- What the response says, besides the security token.
pub record SetupReply : Type 0 where
  pub session_id : ℕ
  pub session_flags : ℕ
  pub raw_form : Bool
  pub skip_signing : Bool
  pub take_preauth_snapshot : Bool

module _ (S : Storage) (N : Ntlm) where
  -- The first round: `acceptor` is the fresh state machine.
  unfoldable pub challenged :
      ℕ → Bool → Option NtlmServer → Connection S → HandlerResult (ℕ × List ℕ) × Connection S
  challenged sid raw none c = (err Ntstatus.logon_failure, c)
  challenged sid raw (some acceptor) c =
      let (token, acceptor') = N.challenge acceptor in
      (ok (sid, token), record c { pending_auths = insert sid (acceptor', raw) c.pending_auths })

  unfoldable pub first_round :
      NtlmServer → Bool → List ℕ → Connection S → HandlerResult (ℕ × List ℕ) × Connection S
  unfolding challenged
  first_round acceptor raw token c =
      let (sid, c') = alloc_session_id S c in
      challenged sid raw (N.step1_negotiate acceptor token) c'

  -- The key of a dialect; 3.1.1 derives it later, and without a dialect there is no logon.
  unfoldable pub setup_key : Option Dialect → List ℕ → HandlerResult (List ℕ)
  setup_key none key = err Ntstatus.invalid_parameter
  setup_key (some smb311) key = ok (replicate 16 0)
  setup_key (some _) key = ok (N.signing_key_30 key)

  -- Whether an identity may log on, and its signing key.
  unfoldable pub gate :
      ServerState S → Option Dialect → Option AuthOutcome → HandlerResult (AuthOutcome × List ℕ)
  unfolding setup_key
  gate st dialect outcome = do
    o ← ok_or Ntstatus.logon_failure outcome
    _ ← refuse_if (is_anonymous o.identity && not (anonymous_allowed S st)) Ntstatus.logon_failure
    key ← setup_key dialect o.session_key
    ok (o, key)

  abbrev is_311 : Option Dialect → Bool
  is_311 (some smb311) = true
  is_311 _ = false

  unfoldable pub establish :
      ℕ
      → Bool
      → HandlerResult (AuthOutcome × List ℕ)
      → Connection S
      → HandlerResult SetupReply × Connection S
  establish sid raw (err status) c = (err status, c)
  establish sid raw (ok (o, key)) c = (
    ok (record {
      session_id = sid;
      session_flags = if is_anonymous o.identity then flag_is_guest else 0;
      raw_form = raw;
      skip_signing = is_anonymous o.identity;
      take_preauth_snapshot = is_311 c.dialect;
    }),
    record c {
      sessions = insert sid (new_session S sid o.identity o.session_key key false none) c.sessions;
    },
  )

  unfoldable pub with_acceptor :
      ServerState S
      → ℕ
      → List ℕ
      → Option (NtlmServer × Bool)
      → Connection S
      → HandlerResult SetupReply × Connection S
  unfolding gate establish
  with_acceptor st sid token none c = (err Ntstatus.user_session_deleted, c)
  with_acceptor st sid token (some (acceptor, raw)) c =
      establish sid raw
        (gate st c.dialect (N.authenticate acceptor token (λ name. lookup_user S name st)))
        (record c { pending_auths = remove sid c.pending_auths })

  -- The follow-up round takes the pending state machine out of its table, whatever comes of it.
  unfoldable pub follow_up :
      ServerState S → ℕ → List ℕ → Connection S → HandlerResult SetupReply × Connection S
  unfolding with_acceptor
  follow_up st sid token c =
      if sid == 0
      then (err Ntstatus.invalid_parameter, c)
      else with_acceptor st sid token (lookup sid c.pending_auths) c
