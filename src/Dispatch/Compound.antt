-- ===== src/Dispatch/Compound.antt =====
-- dispatch.rs: a frame of several requests. The loop of `dispatch_frame`, what a related request
-- inherits from the one before it, and the responses put back into one frame.
pub mod Chain
pub mod Stitch
pub mod Seal
pub mod FileIds
pub mod Related
pub mod Requests
use rust_smb_server.Prelude.{
  ℕ, zero, suc, ◌+◌, ◌-◌, ◌*◌, ◌/◌, ◌^◌, ◌==◌, ltb, leb, if◌then◌else◌, ◌&&◌, ◌||◌, not, Bool, true,
  false, Option, none, some, List, [], ◌∷◌, ◌++◌, length, take, drop, replicate, min,
}
use rust_smb_server.Prelude.Assoc.{lookup}
use rust_smb_server.Prelude.Bytes.{le_bytes, from_le_bytes, slice, splice}
use rust_smb_server.Backend.{Storage}
use rust_smb_server.Access.{is_anonymous}
use rust_smb_server.Ntstatus
use rust_smb_server.Proto.Error
use rust_smb_server.Proto.Wire.{Binrw}
use rust_smb_server.Proto.Header.{
  Smb2Header, HeaderTail, sync_tail, async_tail, tree_id, parse, smb2_header_len,
  flags_related_operations, flags_signed,
}
use rust_smb_server.Proto.Header.Opcode
use rust_smb_server.Proto.Header.Opcode.{Command}
use rust_smb_server.Proto.Sign.{Macs, sign}
use rust_smb_server.Conn.State.{Session, Connection, nat_eq}
use rust_smb_server.Dispatch.{has_flag, or_zero, signed_or_plain}

abbrev pub read_u32 : List ℕ → ℕ → ℕ
read_u32 buf offset = from_le_bytes (slice buf offset 4)

abbrev pub read_u64 : List ℕ → ℕ → ℕ
read_u64 buf offset = from_le_bytes (slice buf offset 8)

-- `!7` clears the three lowest digits.
unfoldable pub align_8 : ℕ → ℕ
align_8 n = (n + 7) / 8 * 8

unfoldable pub file_id_body_offset : Command → Option ℕ
file_id_body_offset Opcode.close = some 8
file_id_body_offset Opcode.flush = some 8
file_id_body_offset Opcode.lock = some 8
file_id_body_offset Opcode.ioctl = some 8
file_id_body_offset Opcode.query_directory = some 8
file_id_body_offset Opcode.change_notify = some 8
file_id_body_offset Opcode.oplock_break = some 8
file_id_body_offset Opcode.read = some 16
file_id_body_offset Opcode.write = some 16
file_id_body_offset Opcode.query_info = some 24
file_id_body_offset Opcode.set_info = some 16
file_id_body_offset _ = none

unfoldable pub capture_create_file_id : List ℕ → Option (List ℕ)
capture_create_file_id response =
    if ltb (length response) (smb2_header_len + 80)
      || not (read_u32 response 0x08 == Ntstatus.success)
    then none
    else some (slice response (smb2_header_len + 64) 16)

-- What the loop keeps of the requests so far.
pub record Context : Type 0 where
  pub prev_session_id : ℕ
  pub prev_tree_id : ℕ
  pub prev_create_file_id : Option (List ℕ)
  pub compound_ordinal : ℕ

abbrev pub new_context : Context
new_context = record {
  prev_session_id = 0;
  prev_tree_id = 0;
  prev_create_file_id = none;
  compound_ordinal = 0;
}

-- `if let HeaderTail::Sync { .. }`
abbrev pub set_tree_id : ℕ → HeaderTail → HeaderTail
set_tree_id tree_id (sync_tail reserved old) = sync_tail reserved tree_id
set_tree_id tree_id (async_tail async_id) = async_tail async_id

unfoldable pub inherit_session : Context → List ℕ × Smb2Header → List ℕ × Smb2Header
inherit_session ctx (sub_frame, hdr) =
    if read_u64 sub_frame 0x28 == 2 ^ 64 - 1
    then (
      splice sub_frame 0x28 (le_bytes 8 ctx.prev_session_id),
      record hdr { session_id = ctx.prev_session_id },
    )
    else (sub_frame, hdr)

unfoldable pub inherit_tree : Context → List ℕ × Smb2Header → List ℕ × Smb2Header
inherit_tree ctx (sub_frame, hdr) =
    if read_u32 sub_frame 0x24 == 2 ^ 32 - 1
    then (
      splice sub_frame 0x24 (le_bytes 4 ctx.prev_tree_id),
      record hdr { tail = set_tree_id ctx.prev_tree_id hdr.tail },
    )
    else (sub_frame, hdr)

-- The two `let else` of the end of `inherit_related_context`, and what they guard.
unfoldable pub inherit_file : Option (List ℕ) → Option ℕ → List ℕ → List ℕ
inherit_file none _ sub_frame = sub_frame
inherit_file (some file_id) none sub_frame = sub_frame
inherit_file (some file_id) (some body_offset) sub_frame =
    let offset = smb2_header_len + body_offset in
    if leb (offset + 16) (length sub_frame)
      && (read_u64 sub_frame offset == 2 ^ 64 - 1 && read_u64 sub_frame (offset + 8) == 2 ^ 64 - 1)
    then splice sub_frame offset file_id
    else sub_frame

unfoldable pub inherit_related_context : Context → List ℕ → Smb2Header → List ℕ × Smb2Header
inherit_related_context ctx sub_frame hdr =
    let (sub_frame', hdr') = inherit_tree ctx (inherit_session ctx (sub_frame, hdr)) in
    (inherit_file ctx.prev_create_file_id (file_id_body_offset hdr'.command) sub_frame', hdr')

abbrev pub is_create : Command → Bool
is_create Opcode.create = true
is_create _ = false

-- What the loop collects, `return None`, or no fuel left.
pub data FrameResult : Type 0 where
  responses : List (List ℕ) → FrameResult
  rejected : FrameResult
  out_of_fuel : FrameResult

abbrev pub with_response : Option (List ℕ) → FrameResult → FrameResult
with_response (some response) (responses rs) = responses (response ∷ rs)
with_response _ r = r

-- `next == 0`, or `next` inside what is available.
unfoldable pub sub_length : ℕ → ℕ → Option ℕ
sub_length next available =
    if next == 0
    then some available
    else (if ltb next smb2_header_len || ltb available next then none else some next)

-- `prev_create_file_id`, after a response.
unfoldable pub captured : Command → Option (List ℕ) → Option (List ℕ) → Option (List ℕ)
captured cmd none before = before
captured cmd (some response) before =
    if is_create cmd then capture_create_file_id response else before

-- A step of the loop: the request as it is dispatched, and the context after its response.
unfoldable pub inherited : Context → List ℕ → Smb2Header → List ℕ × Smb2Header
inherited ctx sub_frame hdr =
    if has_flag flags_related_operations hdr.flags
    then inherit_related_context ctx sub_frame hdr
    else (sub_frame, hdr)

unfoldable pub next_context : Context → Smb2Header → Option (List ℕ) → Context
next_context ctx hdr response = record {
  prev_session_id = hdr.session_id;
  prev_tree_id = or_zero (tree_id hdr);
  prev_create_file_id = captured hdr.command response ctx.prev_create_file_id;
  compound_ordinal = min (ctx.compound_ordinal + 1) (2 ^ 32 - 1);
}

abbrev pub with_length : Smb2Header → Option ℕ → Option (Smb2Header × ℕ)
with_length hdr none = none
with_length hdr (some n) = some (hdr, n)

-- The header of the request that stands in front, and the length of its bytes: each `return None` of
-- the loop is `none`.
abbrev pub sub_of : List ℕ → Error.ProtoResult (Smb2Header × List ℕ) → Option (Smb2Header × ℕ)
sub_of available (Error.err e) = none
sub_of available (Error.ok (hdr, _)) =
    with_length hdr (sub_length hdr.next_command (length available))

-- The state of the server and the connection, and `dispatch_one` on a request and its ordinal.
module _ {ℓ} (St : Type ℓ) (dispatch_one : St → List ℕ → ℕ → St × Option (List ℕ)) where
  abbrev pub after_sub : ℕ → Option (List ℕ) → St → St × FrameResult → St × FrameResult
  after_sub next response st (st', rest) =
      if next == 0
      then (st, with_response response (responses []))
      else (st', with_response response rest)

  -- The body of the loop, with what it goes on to.
  unfoldable pub dispatch_sub :
      (St → Context → List ℕ → St × FrameResult)
      → St
      → Context
      → List ℕ
      → Option (Smb2Header × ℕ)
      → St × FrameResult
  dispatch_sub again st ctx available none = (st, rejected)
  dispatch_sub again st ctx available (some (hdr, sub_len)) =
      let (sub_frame, hdr') = inherited ctx (take sub_len available) hdr in
      let (st', response) = dispatch_one st sub_frame ctx.compound_ordinal in
      after_sub hdr.next_command response st'
        (again st' (next_context ctx hdr' response) (drop sub_len available))

module _ ⦃b : Binrw⦄ where
  unfoldable pub split_sub : List ℕ → Option (Smb2Header × ℕ)
  split_sub available =
      if ltb (length available) smb2_header_len then none else sub_of available (parse available)

  module _ {ℓ} (St : Type ℓ) (dispatch_one : St → List ℕ → ℕ → St × Option (List ℕ)) where
    unfoldable pub dispatch_loop : ℕ → St → Context → List ℕ → St × FrameResult
    dispatch_loop zero st ctx available = (st, out_of_fuel)
    dispatch_loop (suc fuel) st ctx [] = (st, responses [])
    dispatch_loop (suc fuel) st ctx (x ∷ rest) =
        dispatch_sub St dispatch_one (dispatch_loop fuel) st ctx (x ∷ rest) (split_sub (x ∷ rest))

-- `out.resize(n, 0)`
abbrev pub resize : ℕ → List ℕ → List ℕ
resize n out = take n out ++ replicate (n - length out) 0

-- The first loop of `stitch_responses`: the bytes, and the range of each response.
unfoldable pub append_responses : List ℕ → List (List ℕ) → List ℕ × List (ℕ × ℕ)
append_responses out [] = (out, [])
append_responses out (response ∷ []) = (out ++ response, (length out, length response) ∷ [])
append_responses out (response ∷ next ∷ rest) =
    let start = length out in
    let response' = splice response 0x14 (le_bytes 4 (align_8 (length response))) in
    let (out', ranges) =
      append_responses (resize (start + align_8 (length response)) (out ++ response'))
        (next ∷ rest) in
    (out', (start, length response) ∷ ranges)

module _ (S : Storage) ⦃m : Macs⦄ where
  -- `sign` of a range of the buffer, whose flags and session are read inside it, where the session of the response has a key.
  unfoldable pub sign_for : Connection S → List ℕ → Option (Session S) → List ℕ
  sign_for c part none = part
  sign_for c part (some s) =
      if is_anonymous s.identity
      then part
      else signed_or_plain part (sign part s.signing_key c.signing_algo)

  unfoldable pub sign_part : Connection S → List ℕ → List ℕ
  sign_part c part =
      if has_flag flags_signed (read_u32 part 0x10)
      then sign_for c part (lookup (read_u64 part 0x28) c.sessions)
      else part

  -- The second loop: each range is signed where it stands.
  unfoldable pub sign_ranges : Connection S → List ℕ → List (ℕ × ℕ) → List ℕ
  sign_ranges c out [] = out
  sign_ranges c out ((start, len) ∷ rest) =
      sign_ranges c (splice out start (sign_part c (slice out start len))) rest

  unfoldable pub stitch_responses : Connection S → List (List ℕ) → List ℕ
  stitch_responses c rs = let (out, ranges) = append_responses [] rs in sign_ranges c out ranges

  -- The end of `dispatch_frame`.
  unfoldable pub answer_frame {ℓ} :
      {W : Type ℓ} → (Connection S × W) × FrameResult → (Connection S × W) × Option (List ℕ)
  answer_frame (st, responses []) = (st, none)
  answer_frame ((c, w), responses (r ∷ rs)) = ((c, w), some (stitch_responses c (r ∷ rs)))
  answer_frame (st, rejected) = (st, none)
  answer_frame (st, out_of_fuel) = (st, none)

-- `dispatch_frame`, past the SMB1 bootstrap: the state, and the bytes for the writer. `W` stands for
-- what is outside the connection: the state of the server and of its storage.
module _ {ℓ} (S : Storage) (W : Type ℓ)
    (dispatch_one : Connection S × W → List ℕ → ℕ → (Connection S × W) × Option (List ℕ))
    ⦃b : Binrw⦄ ⦃m : Macs⦄ where
  unfoldable pub dispatch_compound :
      Connection S × W → List ℕ → (Connection S × W) × Option (List ℕ)
  dispatch_compound st frame =
      if ltb (length frame) smb2_header_len
      then (st, none)
      else answer_frame S
          (dispatch_loop (Connection S × W) dispatch_one (suc (length frame)) st new_context frame)
