-- ===== src/Proto/Messages/Create/Contexts.antt =====
-- `CreateContext::parse_chain` and `CreateContext::encode_chain` of proto/messages/create.rs.
use rust_smb_server.Prelude.{
  ℕ, zero, suc, ◌+◌, ◌-◌, ◌%◌, ◌^◌, ◌≤◌, ◌<◌, ◌==◌, ltb, leb, if◌then◌else◌, ◌≡◌, ◌≢◌, refl, Bool,
  true, false, Bool-cases, inl, inr, ◌||◌, Option, none, some, List, [], ◌∷◌, ◌++◌, length, drop,
  replicate, arith, is_empty, length-drop,
}
use rust_smb_server.Prelude.Bytes.{le_bytes, from_le_bytes, slice, splice}
use rust_smb_server.Proto.Error.{ProtoResult, ok, err, malformed, ◌>>=◌}

pub record CreateContext : Type 0 where
  pub name : List ℕ
  pub content : List ℕ

-- An unsigned integer of `w` bytes at an offset of an entry.
abbrev field : ℕ → ℕ → List ℕ → ℕ
field w offset entry = from_le_bytes (slice entry offset w)

-- `entry.get(offset..offset + n)`
unfoldable pub get_range : List ℕ → ℕ → ℕ → ProtoResult (List ℕ)
get_range entry offset n =
    if leb (offset + n) (length entry) then ok (slice entry offset n) else err malformed

-- The context that an entry holds.
unfoldable pub entry_context : List ℕ → ProtoResult CreateContext
entry_context entry = do
  name ← get_range entry (field 2 4 entry) (field 2 6 entry)
  content ←
      if field 4 12 entry == 0 then ok [] else get_range entry (field 2 10 entry) (field 4 12 entry)
  ok (record { name = name; content = content })

-- What a round of the loop leads to: the contexts to come, or an error; `none` is no fuel left.
abbrev pub prepend :
    CreateContext
    → Option (ProtoResult (List CreateContext))
    → Option (ProtoResult (List CreateContext))
prepend ctx none = none
prepend ctx (some (err e)) = some (err e)
prepend ctx (some (ok ctxs)) = some (ok (ctx ∷ ctxs))

abbrev pub parsed_entry :
    ℕ
    → Option (ProtoResult (List CreateContext))
    → ProtoResult CreateContext
    → Option (ProtoResult (List CreateContext))
parsed_entry next rest (err e) = some (err e)
parsed_entry next rest (ok ctx) = if next == 0 then some (ok (ctx ∷ [])) else prepend ctx rest

-- The loop, at an offset into the chain. An entry has at least 16 bytes.
unfoldable pub parse_chain_at : ℕ → ℕ → List ℕ → Option (ProtoResult (List CreateContext))
parse_chain_at zero cursor_off chain = none
parse_chain_at (suc fuel) cursor_off chain =
    let entry = drop cursor_off chain in
    let next = field 4 0 entry in
    let rest = parse_chain_at fuel (cursor_off + next) chain in
    if ltb (length chain) cursor_off || ltb (length entry) 16
    then some (err malformed)
    else parsed_entry next
        (if ltb (2 ^ 64 - 1) (cursor_off + next) then some (err malformed) else rest)
        (entry_context entry)

unfoldable pub parse_chain : List ℕ → Option (ProtoResult (List CreateContext))
parse_chain chain =
    if is_empty chain then some (ok []) else parse_chain_at (suc (length chain)) 0 chain

-- `while !len.is_multiple_of(8) { push(0) }`
abbrev pub pad_8 : List ℕ → List ℕ
pad_8 bytes = bytes ++ replicate ((8 - length bytes % 8) % 8) 0

-- An entry with a `Next` of 0: its header of 16 bytes, the name, and the data from a multiple of eight.
unfoldable pub encode_entry : CreateContext → List ℕ
encode_entry ctx =
    let front = pad_8 (replicate 16 0 ++ ctx.name) in
    le_bytes 4 0
    ++ (le_bytes 2 16
        ++ (le_bytes 2 (length ctx.name)
            ++ (le_bytes 2 0
                ++ (le_bytes 2 (length front)
                    ++ (le_bytes 4 (length ctx.content) ++ (drop 16 front ++ ctx.content))))))

-- The first loop of `encode_chain`: the bytes so far, and where the entries start.
unfoldable pub append_entries : List ℕ → List CreateContext → List ℕ × List ℕ
append_entries scratch [] = (scratch, [])
append_entries scratch (ctx ∷ rest) =
    let start = pad_8 scratch in
    let entry = start ++ encode_entry ctx in
    let (out, starts) = append_entries (if is_empty rest then entry else pad_8 entry) rest in
    (out, length start ∷ starts)

-- The second loop: each entry but the last gets the way to the next.
unfoldable pub link_entries : List ℕ → List ℕ → List ℕ
link_entries scratch [] = scratch
link_entries scratch (this ∷ []) = scratch
link_entries scratch (this ∷ next ∷ rest) =
    link_entries (splice scratch this (le_bytes 4 (next - this))) (next ∷ rest)

unfoldable pub encode_chain : List CreateContext → List ℕ
encode_chain list = let (scratch, starts) = append_entries [] list in link_entries scratch starts

prepend_returns :
    (ctx : CreateContext) (rest : Option (ProtoResult (List CreateContext)))
    → rest ≢ none
    → prepend ctx rest ≢ none
prepend_returns ctx none h e = h refl
prepend_returns ctx (some (err x)) h e = cc
prepend_returns ctx (some (ok ctxs)) h e = cc

parsed_entry_returns :
    (next : ℕ) (rest : Option (ProtoResult (List CreateContext))) (r : ProtoResult CreateContext)
    → ((next == 0) ≡ false → rest ≢ none)
    → parsed_entry next rest r ≢ none
parsed_entry_returns next rest (err x) h e = cc
parsed_entry_returns next rest (ok ctx) h e = elim (Bool-cases (next == 0)) [
  | inl z ↦ let no : some (ok (ctx ∷ [])) ≡ none = rw z at e in cc no
  | inr nz ↦ prepend_returns ctx rest (h nz) (rw nz at e)
]

guarded_returns :
    (bad : Bool) (rest : Option (ProtoResult (List CreateContext)))
    → rest ≢ none
    → (if bad then some (err malformed) else rest) ≢ none
guarded_returns true rest h e = cc
guarded_returns false rest h e = h e

-- A round that goes on is nearer to the end of the chain.
parse_chain_at_returns :
    (fuel cursor_off : ℕ) (chain : List ℕ)
    → length chain < fuel + cursor_off
    → 0 < fuel
    → parse_chain_at fuel cursor_off chain ≢ none
unfolding parse_chain_at
parse_chain_at_returns zero cursor_off chain enough some_fuel stopped = absurd (omega arith)
parse_chain_at_returns (suc fuel) cursor_off chain enough some_fuel stopped =
    let entry : List ℕ = drop cursor_off chain in
    let next : ℕ = field 4 0 entry in
    elim (Bool-cases (ltb (length chain) cursor_off || ltb (length entry) 16)) [
      | inl bad ↦ let no : some (err malformed) ≡ none = rw bad at stopped in cc no
      | inr good ↦
          let inside : cursor_off ≤ length chain = ground arith in
          let long : 16 ≤ length entry = ground arith in
          let left : length entry ≡ length chain - cursor_off = length-drop cursor_off chain in
          parsed_entry_returns next _ (entry_context entry)
            (λ nz.
              let moves : 0 < next = ground arith in
              guarded_returns (ltb (2 ^ 64 - 1) (cursor_off + next)) _
                (parse_chain_at_returns fuel (cursor_off + next) chain (omega arith) (omega arith)))
            (rw good at stopped)
    ]

-- The loop over the entries ends: a chain is parsed, or refused.
pub parse_chain_returns : (chain : List ℕ) → parse_chain chain ≢ none
unfolding parse_chain
parse_chain_returns [] stopped = cc
parse_chain_returns (x ∷ chain) stopped =
    parse_chain_at_returns (suc (length (x ∷ chain))) 0 (x ∷ chain) (omega arith) (omega arith)
      stopped
