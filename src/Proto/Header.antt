-- ===== src/Proto/Header.antt =====
-- proto/header.rs: the fixed header of 64 bytes in its synchronous and asynchronous forms.
pub mod Raw
pub mod Opcode
pub mod RoundTrip
pub mod Signature
pub mod Ids
use rust_smb_server.Prelude.{
  ℕ, ◌==◌, ltb, if◌then◌else◌, not, list_eq, Bool, Option, none, some, List, [], ◌∷◌, ◌++◌, length,
  take, drop, bit_and,
}
use rust_smb_server.Prelude.Bytes.{le_bytes, from_le_bytes, slice}
use rust_smb_server.Proto.Error.{ProtoResult, ok, err, malformed, ◌>>=◌, ◌>>◌, guard}
use rust_smb_server.Proto.Wire.{Binrw}
use Raw.{RawHeader, raw_read, raw_write}
use Opcode.{Command, as_u16, of_u16}

abbrev pub smb2_magic : List ℕ
smb2_magic = 0xfe ∷ b'S' ∷ b'M' ∷ b'B' ∷ []

abbrev pub smb2_header_len : ℕ
smb2_header_len = 64

abbrev pub smb2_header_structure_size : ℕ
smb2_header_structure_size = 64

abbrev pub flags_server_to_redir : ℕ
flags_server_to_redir = 0x0000_0001

abbrev pub flags_async_command : ℕ
flags_async_command = 0x0000_0002

abbrev pub flags_related_operations : ℕ
flags_related_operations = 0x0000_0004

abbrev pub flags_signed : ℕ
flags_signed = 0x0000_0008

pub data HeaderTail : Type 0 where
  sync_tail : ℕ → ℕ → HeaderTail
  async_tail : ℕ → HeaderTail

-- `HeaderTail::sync`: the reserved word is 0.
abbrev pub sync : ℕ → HeaderTail
sync tree_id = sync_tail 0 tree_id

pub record Smb2Header : Type 0 where
  pub credit_charge : ℕ
  pub channel_sequence_status : ℕ
  pub command : Command
  pub credit_request_response : ℕ
  pub flags : ℕ
  pub next_command : ℕ
  pub message_id : ℕ
  pub tail : HeaderTail
  pub session_id : ℕ
  pub signature : List ℕ

unfoldable pub is_async : Smb2Header → Bool
is_async h = not (bit_and h.flags flags_async_command == 0)

unfoldable pub is_response : Smb2Header → Bool
is_response h = not (bit_and h.flags flags_server_to_redir == 0)

abbrev pub tail_tree_id : HeaderTail → Option ℕ
tail_tree_id (sync_tail reserved tree_id) = some tree_id
tail_tree_id (async_tail async_id) = none

abbrev pub tree_id : Smb2Header → Option ℕ
tree_id h = tail_tree_id h.tail

unfoldable pub parse_tail : ℕ → List ℕ → HeaderTail
parse_tail flags bytes =
    if not (bit_and flags flags_async_command == 0)
    then async_tail (from_le_bytes bytes)
    else sync_tail (from_le_bytes (slice bytes 0 4)) (from_le_bytes (slice bytes 4 4))

unfoldable pub parse_command : ℕ → ProtoResult Command
parse_command raw = elim (of_u16 raw) [ none ↦ err malformed | some c ↦ ok c ]

unfoldable pub tail_bytes : HeaderTail → List ℕ
tail_bytes (sync_tail reserved tree_id) = le_bytes 4 reserved ++ le_bytes 4 tree_id
tail_bytes (async_tail async_id) = le_bytes 8 async_id

-- What `parse` does with the raw header.
unfoldable pub header_of_raw : RawHeader → ProtoResult Smb2Header
header_of_raw raw = do
  guard (list_eq raw.protocol_id smb2_magic) malformed
  guard (raw.structure_size == smb2_header_structure_size) malformed
  command ← parse_command raw.command_raw
  ok (record {
    credit_charge = raw.credit_charge;
    channel_sequence_status = raw.channel_sequence_status;
    command = command;
    credit_request_response = raw.credit_request_response;
    flags = raw.flags;
    next_command = raw.next_command;
    message_id = raw.message_id;
    tail = parse_tail raw.flags raw.tail_bytes;
    session_id = raw.session_id;
    signature = raw.signature;
  })

module _ ⦃b : Binrw⦄ where
  unfoldable pub parse : List ℕ → ProtoResult (Smb2Header × List ℕ)
  parse buf = do
    guard (not (ltb (length buf) smb2_header_len)) malformed
    (raw, _) ← raw_read (take smb2_header_len buf)
    h ← header_of_raw raw
    ok (h, drop smb2_header_len buf)

  -- The 64 bytes that `write` appends to its buffer.
  unfoldable pub write : Smb2Header → List ℕ
  write h = raw_write (record {
    protocol_id = smb2_magic;
    structure_size = smb2_header_structure_size;
    credit_charge = h.credit_charge;
    channel_sequence_status = h.channel_sequence_status;
    command_raw = as_u16 h.command;
    credit_request_response = h.credit_request_response;
    flags = h.flags;
    next_command = h.next_command;
    message_id = h.message_id;
    tail_bytes = tail_bytes h.tail;
    session_id = h.session_id;
    signature = h.signature;
  })
