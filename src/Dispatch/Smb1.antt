-- ===== src/Dispatch/Smb1.antt =====
-- `handle_smb1_multi_protocol` and `dispatch_frame` of dispatch.rs: a client that starts with SMB1, and
-- every frame.
use rust_smb_server.Prelude.{
  ℕ, ◌==◌, ltb, if◌then◌else◌, ◌||◌, not, list_eq, ◌≡◌, ◌≢◌, refl, ap, ◌∙◌, Bool, true, false,
  Bool-cases, inl, inr, Option, none, some, List, [], ◌∷◌, ◌++◌, append_assoc, append-nil, length,
  take, replicate, get_or, All, arith,
}
use rust_smb_server.Prelude.Bytes.{from_le_bytes, slice}
use rust_smb_server.Prelude.Text.{codes}
use rust_smb_server.Backend.{Storage}
use rust_smb_server.Proto.Wire.{Binrw}
use rust_smb_server.Proto.Header.{Smb2Header, sync_tail, write}
use rust_smb_server.Proto.Header.Raw.{raw_write}
use rust_smb_server.Proto.Header.Opcode
use rust_smb_server.Proto.Dialect
use rust_smb_server.Proto.Dialect.{as_u16, smb2_wildcard}
use rust_smb_server.Proto.Sign.{Macs}
use rust_smb_server.Conn.State.{Connection}
use rust_smb_server.Handlers.Negotiate.{Offer, multi_protocol_response}
use rust_smb_server.Dispatch.{build_response_bytes}
use rust_smb_server.Dispatch.Compound.{dispatch_compound}

abbrev pub smb1_magic : List ℕ
smb1_magic = 0xff ∷ b'S' ∷ b'M' ∷ b'B' ∷ []

-- The dialects that an offer names.
pub record Wants : Type 0 where
  pub wildcard : Bool
  pub smb202 : Bool

abbrev pub wildcard_name : List ℕ
wildcard_name = codes "SMB 2.???"

abbrev pub smb202_name : List ℕ
smb202_name = codes "SMB 2.002"

-- `match s`: a string that is not UTF-8 is neither of the names.
abbrev pub note : List ℕ → Wants → Wants
note s w = record {
  wildcard = list_eq s wildcard_name || w.wildcard;
  smb202 = list_eq s smb202_name || w.smb202;
}

-- The loop over the blob: between two strings, or inside one. It ends at a byte that starts no string,
-- and where a string has no end.
unfoldable pub scan : Wants → Option (List ℕ) → List ℕ → Wants
scan w none [] = w
scan w none (x ∷ rest) = elim (x == 2) [ true ↦ scan w (some []) rest | false ↦ w ]
scan w (some s) [] = w
scan w (some s) (x ∷ rest) = elim (x == 0) [
  | true ↦ scan (note s w) none rest
  | false ↦ scan w (some (s ++ x ∷ [])) rest
]

abbrev pub nothing_wanted : Wants
nothing_wanted = record { wildcard = false; smb202 = false }

unfoldable pub chosen_of : Wants → Option ℕ
chosen_of w =
    if w.wildcard
    then some (as_u16 smb2_wildcard)
    else (if w.smb202 then some (as_u16 Dialect.smb202) else none)

-- A frame that is no SMB1 NEGOTIATE chooses nothing.
unfoldable pub smb1_choice : List ℕ → Option ℕ
smb1_choice frame =
    if ltb (length frame) 35
      || (not (list_eq (take 4 frame) smb1_magic) || not (get_or frame 4 0 == 0x72))
    then none
    else chosen_of (scan nothing_wanted none (slice frame 35 (from_le_bytes (slice frame 33 2))))

-- The header that the response answers: the other fields are those of `Default`.
abbrev pub synthetic_header : Smb2Header
synthetic_header = record {
  credit_charge = 0;
  channel_sequence_status = 0;
  command = Opcode.negotiate;
  credit_request_response = 0;
  flags = 0;
  next_command = 0;
  message_id = 0;
  tail = sync_tail 0 0xffff;
  session_id = 0;
  signature = replicate 16 0;
}

module _ {ℓ} (S : Storage) (W : Type ℓ)
    (dispatch_one : Connection S × W → List ℕ → ℕ → (Connection S × W) × Option (List ℕ))
    ⦃b : Binrw⦄ ⦃m : Macs⦄ where
  abbrev pub smb1_or :
      Connection S × W → Offer → List ℕ → Option ℕ → (Connection S × W) × Option (List ℕ)
  smb1_or st offer frame none = dispatch_compound S W dispatch_one st frame
  smb1_or (c, w) offer frame (some chosen) = (
    (c, w),
    some (build_response_bytes S c synthetic_header (multi_protocol_response S c offer chosen)),
  )

  unfoldable pub dispatch_frame :
      Connection S × W → Offer → List ℕ → (Connection S × W) × Option (List ℕ)
  dispatch_frame st offer frame = smb1_or st offer frame (smb1_choice frame)

-- An offer: each name behind a 2 and in front of a 0.
abbrev pub encode_offer : List (List ℕ) → List ℕ
encode_offer [] = []
encode_offer (s ∷ rest) = 2 ∷ (s ++ 0 ∷ encode_offer rest)

abbrev pub note_all : Wants → List (List ℕ) → Wants
note_all w [] = w
note_all w (s ∷ rest) = note_all (note s w) rest

abbrev pub IsName : List ℕ → Type 0
IsName = All (λ (x : ℕ). x ≢ 0)

not_zero : (x : ℕ) → x ≢ 0 → (x == 0) ≡ false
not_zero x h = ground arith

scan-name :
    (w : Wants) (read s rest : List ℕ)
    → IsName s
    → scan w (some read) (s ++ 0 ∷ rest) ≡ scan (note (read ++ s) w) none rest
unfolding scan
scan-name w read [] rest f = rw (append-nil read) refl
scan-name w read (x ∷ s) rest (f, fs) =
    rw (scan, not_zero x f)
      (scan-name w (read ++ x ∷ []) s rest fs
        ∙ ap (λ n. scan (note n w) none rest) (append_assoc read (x ∷ []) s))

-- The names that an offer is read as are the names that were put into it.
pub scan-encode_offer :
    (w : Wants) (names : List (List ℕ))
    → All IsName names
    → scan w none (encode_offer names) ≡ note_all w names
unfolding scan
scan-encode_offer w [] f = refl
scan-encode_offer w (s ∷ rest) (f, fs) =
    scan-name w [] s (encode_offer rest) f ∙ scan-encode_offer (note s w) rest fs

module _ {ℓ} (S : Storage) (W : Type ℓ)
    (dispatch_one : Connection S × W → List ℕ → ℕ → (Connection S × W) × Option (List ℕ))
    ⦃b : Binrw⦄ ⦃m : Macs⦄ where
  -- A frame with an SMB2 header is none of SMB1.
  pub dispatch_frame-write :
      (st : Connection S × W) (offer : Offer) (hdr : Smb2Header) (body : List ℕ)
      → dispatch_frame S W dispatch_one st offer (write hdr ++ body)
        ≡ dispatch_compound S W dispatch_one st (write hdr ++ body)
  unfolding dispatch_frame smb1_choice write raw_write
  dispatch_frame-write st offer hdr body = elim (Bool-cases (ltb (length (write hdr ++ body)) 35)) [
    | inl e ↦ rw e refl
    | inr e ↦ rw e refl
  ]
