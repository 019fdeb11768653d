-- ===== src/Proto/Header/RoundTrip.antt =====
-- `Smb2Header::parse` and `Smb2Header::write` are inverse to one another.
use rust_smb_server.Prelude.{
  ℕ, ◌==◌, ==_iff, ltb, not_ltb, not, if◌then◌else◌, list_eq, list_eq_sound, ◌≡◌, refl, ap, ◌∙◌,
  ◌<◌, ◌^◌, Bool, true, false, List, [], ◌++◌, length, take, drop, bit_and, arith, length-append,
  length-take, take-append, drop-append, take-append-drop, All-take, All-drop, length-drop,
  append-nil,
}
use rust_smb_server.Prelude.Bytes.{
  IsBytes, le_bytes, from_le_bytes, slice, length-le_bytes, from_le_bytes-le_bytes,
  le_bytes-from_le_bytes,
}
use rust_smb_server.Proto.Error.{ok, malformed, ◌>>=◌, bind-eq-ok, guard-eq-ok, ok-injective}
use rust_smb_server.Proto.Wire.{Binrw, length-write}
use rust_smb_server.Proto.Header.{
  Smb2Header, HeaderTail, sync_tail, async_tail, is_async, parse, write, parse_tail, parse_command,
  tail_bytes, smb2_header_len, smb2_magic, flags_async_command, header_of_raw,
  smb2_header_structure_size,
}
use rust_smb_server.Proto.Header.Opcode.{Command, as_u16, of_u16-as_u16, as_u16-lt, of_u16_inv}
use rust_smb_server.Proto.Header.Raw.{
  RawHeader, FitsRaw, raw_write, raw_read-raw_write, raw_read_total,
}

-- The tail has the form that the flags announce, and its numbers fit.
abbrev pub FitsTail : Bool → HeaderTail → Type 0
FitsTail true (sync_tail reserved tree_id) = ⊥
FitsTail true (async_tail async_id) = async_id < 256 ^ 8
FitsTail false (sync_tail reserved tree_id) = (reserved < 256 ^ 4) × (tree_id < 256 ^ 4)
FitsTail false (async_tail async_id) = ⊥

-- The fields of a Rust value of the type, with the form of the tail that the flags announce.
pub record FitsHeader (h : Smb2Header) : Type 0 where
  pub credit_charge : h.credit_charge < 256 ^ 2
  pub status : h.channel_sequence_status < 256 ^ 4
  pub credit : h.credit_request_response < 256 ^ 2
  pub flags : h.flags < 256 ^ 4
  pub next_command : h.next_command < 256 ^ 4
  pub message_id : h.message_id < 256 ^ 8
  pub tail : FitsTail (is_async h) h.tail
  pub session_id : h.session_id < 256 ^ 8
  pub signature : length h.signature ≡ 16

pub length-tail_bytes : (t : HeaderTail) → length (tail_bytes t) ≡ 8
unfolding tail_bytes
length-tail_bytes (sync_tail r t) =
    omega
      (arith, length-append (le_bytes 4 r) (le_bytes 4 t), length-le_bytes 4 r, length-le_bytes 4 t)
length-tail_bytes (async_tail a) = length-le_bytes 8 a

take_all : (bs : List ℕ) (n : ℕ) → length bs ≡ n → take n bs ≡ bs
take_all bs n h = rw append-nil at (take-append bs [] n h)

-- `form` is the test of the flags.
tail_back :
    (form : Bool) (t : HeaderTail)
    → FitsTail form t
    → (if form
        then async_tail (from_le_bytes (tail_bytes t))
        else sync_tail
            (from_le_bytes (slice (tail_bytes t) 0 4))
            (from_le_bytes (slice (tail_bytes t) 4 4)))
      ≡ t
unfolding tail_bytes
tail_back true (sync_tail r t) f = absurd f
tail_back true (async_tail a) f = ap async_tail (from_le_bytes-le_bytes 8 a f)
tail_back false (sync_tail r t) f = rw (
  take-append (le_bytes 4 r) (le_bytes 4 t) 4 (length-le_bytes 4 r),
  drop-append (le_bytes 4 r) (le_bytes 4 t) 4 (length-le_bytes 4 r),
  take_all (le_bytes 4 t) 4 (length-le_bytes 4 t),
  from_le_bytes-le_bytes 4 r f.0,
  from_le_bytes-le_bytes 4 t f.1,
)
tail_back false (async_tail a) f = absurd f

-- And eight bytes are those of the tail that is read from them.
tail_forth :
    (form : Bool) (bs : List ℕ)
    → IsBytes bs
    → length bs ≡ 8
    → tail_bytes (
        if form
        then async_tail (from_le_bytes bs)
        else sync_tail (from_le_bytes (slice bs 0 4)) (from_le_bytes (slice bs 4 4)))
      ≡ bs
unfolding tail_bytes
tail_forth true bs bytes len = rw len at (le_bytes-from_le_bytes bs bytes)
tail_forth false bs bytes len =
    rw
      (
        four (take 4 bs) (All-take _ 4 bs bytes) (length-take 4 bs (omega arith)),
        take_all (drop 4 bs) 4 (omega (arith, length-drop 4 bs)),
        four (drop 4 bs) (All-drop _ 4 bs bytes) (omega (arith, length-drop 4 bs)),
      )
      (take-append-drop 4 bs)
  where
    four : (xs : List ℕ) → IsBytes xs → length xs ≡ 4 → le_bytes 4 (from_le_bytes xs) ≡ xs
    four xs b l = rw l at (le_bytes-from_le_bytes xs b)

parse_command-as_u16 : (c : Command) → parse_command (as_u16 c) ≡ ok c
unfolding parse_command
parse_command-as_u16 c = rw (of_u16-as_u16 c, parse_command)

parse_command_inv : (n : ℕ) (c : Command) → parse_command n ≡ ok c → as_u16 c ≡ n
unfolding parse_command
parse_command_inv n c h = ground (arith, of_u16_inv n c)

parse_tail-tail_bytes :
    (flags : ℕ) (t : HeaderTail)
    → FitsTail (not (bit_and flags flags_async_command == 0)) t
    → parse_tail flags (tail_bytes t) ≡ t
unfolding parse_tail
parse_tail-tail_bytes flags t f = tail_back _ t f

tail_bytes-parse_tail :
    (flags : ℕ) (bs : List ℕ) → IsBytes bs → length bs ≡ 8 → tail_bytes (parse_tail flags bs) ≡ bs
unfolding parse_tail
tail_bytes-parse_tail flags bs bytes len = tail_forth _ bs bytes len

raw_of : Smb2Header → RawHeader
raw_of h = record {
  protocol_id = smb2_magic;
  structure_size = 64;
  credit_charge = h.credit_charge;
  channel_sequence_status = h.channel_sequence_status;
  command_raw = as_u16 h.command;
  credit_request_response = h.credit_request_response;
  flags = h.flags;
  next_command = h.next_command;
  message_id = h.message_id;
  tail_bytes = tail_bytes h.tail;
  session_id = h.session_id;
  signature = h.signature;
}

raw_of-FitsRaw : (h : Smb2Header) → FitsHeader h → FitsRaw (raw_of h)
unfolding raw_of
raw_of-FitsRaw h f = record {
  protocol_id = refl;
  structure_size = omega arith;
  credit_charge = f.credit_charge;
  status = f.status;
  command_raw = omega (arith, as_u16-lt h.command);
  credit = f.credit;
  flags = f.flags;
  next_command = f.next_command;
  message_id = f.message_id;
  tail_bytes = length-tail_bytes h.tail;
  session_id = f.session_id;
  signature = f.signature;
}

-- A raw header that passes the checks is the raw form of its header.
header_of_raw_inv :
    (r : RawHeader) (h : Smb2Header)
    → FitsRaw r
    → IsBytes r.tail_bytes
    → header_of_raw r ≡ ok h
    → raw_of h ≡ r
unfolding header_of_raw raw_of
header_of_raw_inv r h f bytes e =
    let (magic, e1) = guard-eq-ok (list_eq r.protocol_id smb2_magic) malformed _ e in
    let (size, e2) = guard-eq-ok (r.structure_size == smb2_header_structure_size) malformed _ e1 in
    let (c, code, e3) = bind-eq-ok (parse_command r.command_raw) _ e2 in
    rw (← ok-injective e3) (
      cc (
        list_eq_sound r.protocol_id smb2_magic magic,
        (==_iff r.structure_size 64).0 size,
        parse_command_inv r.command_raw c code,
        tail_bytes-parse_tail r.flags r.tail_bytes bytes f.tail_bytes,
      ))

module _ ⦃b : Binrw⦄ where
  length-raw_write : (r : RawHeader) → FitsRaw r → length (raw_write r) ≡ 64
  unfolding raw_write
  length-raw_write r f =
      simp (length-append, length-write) (omega (arith, f.protocol_id, f.tail_bytes, f.signature))

  -- A header is written as 64 bytes.
  pub length-write_header : (h : Smb2Header) → FitsHeader h → length (write h) ≡ smb2_header_len
  unfolding write raw_of
  length-write_header h f = length-raw_write (raw_of h) (raw_of-FitsRaw h f)

  -- parse reads back every header that write wrote, whatever bytes follow it, where the fields
  -- have the widths of their types and the tail has the form that the async flag announces.
  pub parse-write :
      (h : Smb2Header) (rest : List ℕ) → FitsHeader h → parse (write h ++ rest) ≡ ok (h, rest)
  unfolding parse write raw_of is_async header_of_raw
  parse-write h rest f =
      let len : length (raw_write (raw_of h)) ≡ 64 =
        length-raw_write (raw_of h) (raw_of-FitsRaw h f) in
      rw (
        not_ltb (length (raw_write (raw_of h) ++ rest)) 64
            (omega (arith, len, length-append (raw_write (raw_of h)) rest)),
        take-append (raw_write (raw_of h)) rest 64 len,
        drop-append (raw_write (raw_of h)) rest 64 len,
        raw_read-raw_write (raw_of h) (raw_of-FitsRaw h f),
        parse_command-as_u16 h.command,
        parse_tail-tail_bytes h.flags h.tail f.tail,
      )

  -- A header that parse read from a buffer of bytes is written, in front of the bytes that
  -- were left, as the same buffer.
  pub write-parse :
      (buf : List ℕ) (h : Smb2Header) (rest : List ℕ)
      → IsBytes buf
      → parse buf ≡ ok (h, rest)
      → write h ++ rest ≡ buf
  unfolding write parse raw_of
  write-parse buf h rest bytes e =
      let (long, e1) = guard-eq-ok (not (ltb (length buf) smb2_header_len)) malformed _ e in
      let (r, raw, fits, back, tail) =
        raw_read_total (take 64 buf) (All-take _ 64 buf bytes)
          (length-take 64 buf (ground arith)) in
      let e2 : (header_of_raw r >>= λ h. ok (h, drop 64 buf)) ≡ ok (h, rest) = rw raw at e1 in
      let (h', e3, e4) = bind-eq-ok (header_of_raw r) _ e2 in
      let same : h' ≡ h = cc e4 in
      let restore : raw_write (raw_of h) ≡ take 64 buf =
        rw (header_of_raw_inv r h fits tail (rw same at e3)) back in
      let remains : drop 64 buf ≡ rest = cc e4 in
      rw (← remains)
        (ap (λ (front : List ℕ). front ++ drop 64 buf) restore ∙ take-append-drop 64 buf)
