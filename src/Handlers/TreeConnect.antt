-- ===== src/Handlers/TreeConnect.antt =====
-- handlers/tree_connect.rs, tree_disconnect.rs and logoff.rs: how a session comes to a tree, and
-- loses it.
pub mod Laws
use rust_smb_server.Prelude.{
  ℕ, ◌==◌, if◌then◌else◌, ◌||◌, ◌&&◌, not, is_empty, Bool, true, false, Option, none, some, List,
  [], ◌∷◌, bit_or,
}
use rust_smb_server.Prelude.Assoc.{lookup, insert, remove, modify}
use rust_smb_server.Prelude.Text.{Str, codes, split, eq_ignore_ascii_case}
use rust_smb_server.Backend.{Storage, ShareBackend, BackendCapabilities, backend_capabilities}
use rust_smb_server.Access.{Access, read, read_write, clamp_to, Identity, authorize}
use rust_smb_server.Ntstatus
use rust_smb_server.Conn.State.{TreeConnect, Session, Connection, nat_eq, new_tree, alloc_tree_id}
use rust_smb_server.Conn.Close.{close_session, close_tree}
use rust_smb_server.Server.State.{ShareBindings, Shares, find, ipc, tree_share}
use rust_smb_server.Handlers.{HandlerResult, ok, err, ◌>>=◌, ok_or}
use rust_smb_server.Handlers.Shared.{lookup_session}

abbrev pub share_type_disk : ℕ
share_type_disk = 0x01

abbrev pub share_type_pipe : ℕ
share_type_pipe = 0x02

abbrev pub file_generic_read : ℕ
file_generic_read = 0x0012_0089

abbrev pub file_generic_execute : ℕ
file_generic_execute = 0x0012_00a0

abbrev pub file_all_access : ℕ
file_all_access = 0x001f_01ff

-- `['\\', '/']`
abbrev pub is_separator : ℕ → Bool
is_separator c = c == b'\\' || c == b'/'

-- `s.trim_end_matches(['\\', '/'])`
unfoldable pub trim_end : Str → Str
trim_end [] = []
trim_end (c ∷ s) =
    let trimmed = trim_end s in if is_empty trimmed && is_separator c then [] else c ∷ trimmed

-- The last of the parts that are not empty.
unfoldable pub last_part : List Str → Option Str
last_part [] = none
last_part (part ∷ parts) = elim (last_part parts) [
  | some later ↦ some later
  | none ↦ if is_empty part then none else some part
]

unfoldable pub extract_share_name : Str → Option Str
unfolding trim_end last_part
extract_share_name unc = last_part (split is_separator (trim_end unc))

-- What the reply says of the tree.
pub record TreeConnectReply : Type 0 where
  pub tree_id : ℕ
  pub share_type : ℕ
  pub maximal_access : ℕ

unfoldable pub maximal_access : Access → ℕ
maximal_access read = bit_or file_generic_read file_generic_execute
maximal_access read_write = file_all_access

module _ (S : Storage) where
  unfoldable pub share_for : Shares S → Str → Option (ShareBindings S)
  share_for shares name =
      if eq_ignore_ascii_case name (codes "IPC$") then some (ipc S) else find S name shares

  -- A read-only backend caps what was granted.
  unfoldable pub backend_cap : ShareBindings S → Access → Access
  backend_cap b granted =
      if (backend_capabilities S b.backend).is_read_only then clamp_to granted read else granted

  -- What a session may get of a share, with the session that asks.
  unfoldable pub decide :
      Shares S → Connection S → ℕ → Str → HandlerResult (Session S × (ShareBindings S × Access))
  decide shares c sid path = do
    name ← ok_or Ntstatus.bad_network_name (extract_share_name path)
    s ← lookup_session S c sid
    b ← ok_or Ntstatus.bad_network_name (share_for shares name)
    granted ← ok_or Ntstatus.access_denied (authorize b.acl.mode b.acl.users s.identity)
    ok (s, (b, backend_cap b granted))

  -- A fresh tree enters the session's table.
  unfoldable pub add_tree : ShareBindings S → Access → Session S → Session S
  add_tree b granted s =
      let (id, s') = alloc_tree_id S s in
      record s' { trees = insert id (new_tree S id (tree_share S b) granted) s'.trees }

  unfoldable pub finish_connect :
      Connection S
      → ℕ
      → HandlerResult (Session S × (ShareBindings S × Access))
      → HandlerResult TreeConnectReply × Connection S
  finish_connect c sid (err status) = (err status, c)
  finish_connect c sid (ok (s, (b, granted))) = (
    ok (record {
      tree_id = s.next_tree_id;
      share_type = if b.is_ipc then share_type_pipe else share_type_disk;
      maximal_access = maximal_access granted;
    }),
    record c { sessions = modify sid (add_tree b granted) c.sessions },
  )

  -- `path` is the UNC path of the request.
  unfoldable pub tree_connect :
      Shares S → Connection S → ℕ → Str → HandlerResult TreeConnectReply × Connection S
  unfolding decide finish_connect
  tree_connect shares c sid path = finish_connect c sid (decide shares c sid path)

  unfoldable pub disconnected :
      Bool × Connection S × S.World → HandlerResult (Unit {0}) × Connection S × S.World
  disconnected (removed, c, w) =
      ((if removed then ok tt else err Ntstatus.network_name_deleted), c, w)

  unfoldable pub disconnect_from :
      HandlerResult (Session S)
      → Connection S
      → ℕ
      → ℕ
      → S.World
      → HandlerResult (Unit {0}) × Connection S × S.World
  disconnect_from (err status) c sid tid w = (err Ntstatus.user_session_deleted, c, w)
  disconnect_from (ok s) c sid tid w = disconnected (close_tree S c sid tid w)

  unfoldable pub tree_disconnect :
      Connection S → ℕ → Option ℕ → S.World → HandlerResult (Unit {0}) × Connection S × S.World
  unfolding disconnect_from
  tree_disconnect c sid none w = (err Ntstatus.invalid_parameter, c, w)
  tree_disconnect c sid (some tid) w = disconnect_from (lookup_session S c sid) c sid tid w

  unfoldable pub logoff :
      Connection S → ℕ → S.World → HandlerResult (Unit {0}) × Connection S × S.World
  logoff c sid w =
      if sid == 0
      then (err Ntstatus.user_session_deleted, c, w)
      else (let (_, c', w') = close_session S c sid w in (ok tt, c', w'))
