-- ===== src/Dispatch/Compound/Related.antt =====
-- `inherit_related_context` of dispatch.rs on requests instead of bytes: what each request of a frame
-- is when it is dispatched, field by field.
use rust_smb_server.Prelude.{
  ℕ, suc, ◌+◌, ◌-◌, ◌^◌, ◌<◌, ◌==◌, leb, if◌then◌else◌, ◌&&◌, ◌≡◌, refl, sym, ap, ◌∙◌, Bool, false,
  Bool-cases, inl, inr, Option, none, some, List, [], ◌∷◌, ◌++◌, append_assoc, length, take, drop,
  min, arith,
}
use rust_smb_server.Prelude.Bytes.{splice, le_bytes, from_le_bytes}
use rust_smb_server.Proto.Wire.{Binrw}
use rust_smb_server.Proto.Header.{
  Smb2Header, HeaderTail, sync_tail, async_tail, write, tree_id, flags_related_operations, is_async,
}
use rust_smb_server.Proto.Header.RoundTrip.{FitsHeader, FitsTail}
use rust_smb_server.Proto.Header.Ids.{
  length-write_frame, length-header, slice-body, slice-session, splice-session, slice-tree,
  splice-tree,
}
use rust_smb_server.Dispatch.{has_flag, or_zero}
use rust_smb_server.Dispatch.Compound.{
  read_u64, file_id_body_offset, Context, inherit_session, inherit_tree, set_tree_id, inherit_file,
  inherit_related_context, captured, inherited, next_context,
}

-- What a request may take over from those in front of it: the session and the tree of the last one,
-- and the file of the last CREATE.
pub record Before : Type 0 where
  pub session_id : ℕ
  pub tree_id : ℕ
  pub file_id : Option (List ℕ)

abbrev pub nothing_before : Before
nothing_before = record { session_id = 0; tree_id = 0; file_id = none }

-- A number that is all ones stands for the one before.
abbrev pub or_before : ℕ → ℕ → ℕ → ℕ
or_before ones n before = if n == ones then before else n

abbrev pub tail_with : Before → HeaderTail → HeaderTail
tail_with p (sync_tail reserved id) = sync_tail reserved (or_before (2 ^ 32 - 1) id p.tree_id)
tail_with p (async_tail id) = async_tail id

abbrev pub header_with : Before → Smb2Header → Smb2Header
header_with p hdr = record hdr {
  session_id = or_before (2 ^ 64 - 1) hdr.session_id p.session_id;
  tail = tail_with p hdr.tail;
}

-- 16 bytes at the offset that are all ones stand for the file before.
abbrev pub all_ones_at : List ℕ → ℕ → Bool
all_ones_at body offset =
    leb (offset + 16) (length body)
    && (read_u64 body offset == 2 ^ 64 - 1 && read_u64 body (offset + 8) == 2 ^ 64 - 1)

abbrev pub body_with : Option (List ℕ) → Option ℕ → List ℕ → List ℕ
body_with none _ body = body
body_with (some file_id) none body = body
body_with (some file_id) (some offset) body =
    if all_ones_at body offset
    then take offset body ++ (file_id ++ drop (offset + length file_id) body)
    else body

-- A request as it is dispatched: only one that is flagged as related takes anything over.
abbrev pub dispatched : Before → Smb2Header × List ℕ → Smb2Header × List ℕ
dispatched p (hdr, body) =
    if has_flag flags_related_operations hdr.flags
    then (header_with p hdr, body_with p.file_id (file_id_body_offset hdr.command) body)
    else (hdr, body)

abbrev pub before_next : Before → Smb2Header → Option (List ℕ) → Before
before_next p hdr response = record {
  session_id = hdr.session_id;
  tree_id = or_zero (tree_id hdr);
  file_id = captured hdr.command response p.file_id;
}

-- Its numbers have the widths of their types, and its tail is that of a synchronous request.
abbrev pub FitsRequest : Smb2Header × List ℕ → Type 0
FitsRequest (hdr, _) = FitsHeader hdr × (is_async hdr ≡ false)

-- The loop's context for the request at a place.
unfoldable pub context_of : Before → ℕ → Context
context_of p place = record {
  prev_session_id = p.session_id;
  prev_tree_id = p.tree_id;
  prev_create_file_id = p.file_id;
  compound_ordinal = min place (2 ^ 32 - 1);
}

pub next-context_of :
    (p : Before) (place : ℕ) (hdr : Smb2Header) (response : Option (List ℕ))
    → next_context (context_of p place) hdr response
      ≡ context_of (before_next p hdr response) (place + 1)
unfolding next_context context_of
next-context_of p place hdr response =
    ap
      (λ (n : ℕ). record {
        prev_session_id = hdr.session_id;
        prev_tree_id = or_zero (tree_id hdr);
        prev_create_file_id = captured hdr.command response p.file_id;
        compound_ordinal = n;
      })
      (capped place)
  where
    capped : (n : ℕ) → min (min n (2 ^ 32 - 1) + 1) (2 ^ 32 - 1) ≡ min (n + 1) (2 ^ 32 - 1)
    capped n = ground arith

take_past : (xs ys : List ℕ) (n : ℕ) → take (length xs + n) (xs ++ ys) ≡ xs ++ take n ys
take_past [] ys n = ap (λ (k : ℕ). take k ys) (omega arith)
take_past (x ∷ xs) ys n =
    let one_more : length (x ∷ xs) + n ≡ suc (length xs + n) = omega arith in
    ap (λ (k : ℕ). take k (x ∷ (xs ++ ys))) one_more ∙ ap (λ zs. x ∷ zs) (take_past xs ys n)

drop_past : (xs ys : List ℕ) (n : ℕ) → drop (length xs + n) (xs ++ ys) ≡ drop n ys
drop_past [] ys n = ap (λ (k : ℕ). drop k ys) (omega arith)
drop_past (x ∷ xs) ys n =
    let one_more : length (x ∷ xs) + n ≡ suc (length xs + n) = omega arith in
    ap (λ (k : ℕ). drop k (x ∷ (xs ++ ys))) one_more ∙ drop_past xs ys n

splice_past :
    (xs ys new : List ℕ) (n : ℕ)
    → splice (xs ++ ys) (length xs + n) new ≡ xs ++ (take n ys ++ (new ++ drop (n + length new) ys))
unfolding splice
splice_past xs ys new n =
    let after : drop (length xs + n + length new) (xs ++ ys) ≡ drop (n + length new) ys =
      ap (λ (k : ℕ). drop k (xs ++ ys)) (omega arith) ∙ drop_past xs ys (n + length new) in
    rw (take_past xs ys n, after, append_assoc xs (take n ys) (new ++ drop (n + length new) ys))
      refl

module _ ⦃b : Binrw⦄ where
  -- The bytes of a request.
  abbrev pub request_bytes : Smb2Header × List ℕ → List ℕ
  request_bytes (hdr, body) = write hdr ++ body

  abbrev pub sub_of_request : Smb2Header × List ℕ → Smb2Header × List ℕ
  sub_of_request (hdr, body) = (hdr, write hdr ++ body)

  inherit_session-header :
      (p : Before) (place : ℕ) (hdr : Smb2Header) (body : List ℕ)
      → hdr.session_id < 256 ^ 8
      → let hdr' : Smb2Header = record hdr {
        session_id = or_before (2 ^ 64 - 1) hdr.session_id p.session_id;
      } in
        inherit_session (context_of p place) (write hdr ++ body, hdr) ≡ (write hdr' ++ body, hdr')
  unfolding inherit_session context_of
  inherit_session-header p place hdr body f = elim (Bool-cases (hdr.session_id == 2 ^ 64 - 1)) [
    | inl e ↦
        rw (slice-session hdr body f, e)
          (ap (λ bytes. (bytes, record hdr { session_id = p.session_id }))
            (splice-session hdr body p.session_id))
    | inr e ↦ rw (slice-session hdr body f, e) refl
  ]

  inherit_tree-header :
      (p : Before) (place : ℕ) (hdr : Smb2Header) (body : List ℕ) (t : HeaderTail)
      → hdr.tail ≡ t
      → FitsTail false t
      → let hdr' : Smb2Header = record hdr { tail = tail_with p t } in
        inherit_tree (context_of p place) (write hdr ++ body, hdr) ≡ (write hdr' ++ body, hdr')
  unfolding inherit_tree context_of
  inherit_tree-header p place hdr body (async_tail id) e f = absurd f
  inherit_tree-header p place hdr body (sync_tail reserved id) e (_, f) =
      elim (Bool-cases (id == 2 ^ 32 - 1)) [
        | inl ones ↦
            rw (slice-tree hdr body reserved id e f, ones)
              (ap
                  (λ (t : HeaderTail). (
                    splice (write hdr ++ body) 36 (le_bytes 4 p.tree_id),
                    record hdr { tail = set_tree_id p.tree_id t },
                  ))
                  e
                ∙ ap (λ bytes. (bytes, record hdr { tail = sync_tail reserved p.tree_id }))
                    (splice-tree hdr body reserved id p.tree_id e))
        | inr other ↦
            rw (slice-tree hdr body reserved id e f, other)
              (ap
                (λ (t : HeaderTail).
                  (write (record hdr { tail = t }) ++ body, record hdr { tail = t }))
                e)
      ]

  inherit_file-body :
      (file_id : Option (List ℕ)) (offset : Option ℕ) (hdr : Smb2Header) (body : List ℕ)
      → length hdr.signature ≡ 16
      → inherit_file file_id offset (write hdr ++ body) ≡ write hdr ++ body_with file_id offset body
  unfolding inherit_file
  inherit_file-body none offset hdr body sig = refl
  inherit_file-body (some file_id) none hdr body sig = refl
  inherit_file-body (some file_id) (some o) hdr body sig =
      let room : leb (64 + o + 16) (length (write hdr ++ body)) ≡ leb (o + 16) (length body) =
        ap (leb (64 + o + 16)) (length-write_frame hdr body sig) ∙ shift o (length body) in
      let low : read_u64 (write hdr ++ body) (64 + o) ≡ read_u64 body o =
        ap from_le_bytes (slice-body hdr body o 8 sig) in
      let high : read_u64 (write hdr ++ body) (64 + o + 8) ≡ read_u64 body (o + 8) =
        ap (read_u64 (write hdr ++ body)) (omega arith)
        ∙ ap from_le_bytes (slice-body hdr body (o + 8) 8 sig) in
      let spliced : splice (write hdr ++ body) (64 + o) file_id
          ≡ write hdr ++ (take o body ++ (file_id ++ drop (o + length file_id) body)) =
        ap (λ (n : ℕ). splice (write hdr ++ body) (n + o) file_id) (sym (length-header hdr sig))
        ∙ splice_past (write hdr) body file_id o in
      elim (Bool-cases (all_ones_at body o)) [
        | inl e ↦ rw (room, low, high, e) spliced
        | inr e ↦ rw (room, low, high, e) refl
      ]
    where
      shift : (o n : ℕ) → leb (64 + o + 16) (64 + n) ≡ leb (o + 16) n
      shift o n = ground arith

  -- What the loop makes of the bytes of a request are the bytes of the request as it is
  -- dispatched.
  pub inherited-dispatched :
      (p : Before) (place : ℕ) (hdr : Smb2Header) (body : List ℕ)
      → FitsRequest (hdr, body)
      → inherited (context_of p place) (write hdr ++ body) hdr
        ≡ (request_bytes (dispatched p (hdr, body)), (dispatched p (hdr, body)).0)
  unfolding inherited inherit_related_context context_of
  inherited-dispatched p place hdr body (f, sync) =
      let hdr1 : Smb2Header = record hdr {
        session_id = or_before (2 ^ 64 - 1) hdr.session_id p.session_id;
      } in
      let hdr2 : Smb2Header = header_with p hdr in
      let tail : FitsTail false hdr.tail = rw sync at f.tail in
      elim (Bool-cases (has_flag flags_related_operations hdr.flags)) [
        | inr e ↦ rw e refl
        | inl e ↦
            rw
              (
                e,
                inherit_session-header p place hdr body f.session_id,
                inherit_tree-header p place hdr1 body hdr.tail refl tail,
              )
              (ap (λ bytes. (bytes, hdr2))
                (inherit_file-body p.file_id (file_id_body_offset hdr.command) hdr2 body
                  f.signature))
      ]
