-- ===== src/Dispatch/Compound/Chain.antt =====
-- How `dispatch_frame` splits a frame: along the chain of its headers, and nothing else.
use rust_smb_server.Prelude.{
  ℕ, zero, suc, ◌≤◌, ◌<◌, ◌==◌, ltb, not_ltb, ◌≡◌, ◌≢◌, refl, sym, ap, ◌∙◌, false, Bool-cases, ◌||◌,
  inl, inr, ◌⊎◌, Option, none, some, List, [], ◌∷◌, length, take, drop, arith, length-drop,
}
use rust_smb_server.Backend.{Storage}
use rust_smb_server.Proto.Error
use rust_smb_server.Proto.Wire.{Binrw}
use rust_smb_server.Proto.Header.{Smb2Header, parse}
use rust_smb_server.Proto.Sign.{Macs}
use rust_smb_server.Conn.State.{Connection}
use rust_smb_server.Dispatch.Compound.{
  new_context, answer_frame, dispatch_compound, Context, FrameResult, responses, rejected,
  out_of_fuel, with_response, sub_length, with_length, inherited, next_context, dispatch_sub,
  sub_of, split_sub, dispatch_loop,
}

take_all : (xs : List ℕ) → take (length xs) xs ≡ xs
take_all [] = refl
take_all (x ∷ xs) = ap (λ ys. x ∷ ys) (take_all xs)

positive : (n : ℕ) → 1 ≤ n → (n == 0) ≡ false
positive n h = ground arith

-- What a header may say of the length of its request.
Reach : ℕ → ℕ → ℕ → Type 0
Reach next available n =
    ((next ≡ 0) × (n ≡ available)) ⊎ ((64 ≤ next) × (next ≤ available) × (n ≡ next))

some-injective : {a b : ℕ} → some a ≡ some b → a ≡ b
some-injective h = cc

sub_length-inv :
    (next available n : ℕ) → sub_length next available ≡ some n → Reach next available n
unfolding sub_length Reach
sub_length-inv next available n h = elim (Bool-cases (next == 0)) [
  | inl zero_next ↦
      let e : some available ≡ some n = rw zero_next at h in
      inl (ground arith, sym (some-injective e))
  | inr not_zero ↦ elim (Bool-cases (ltb next 64 || ltb available next)) [
    | inl bad ↦ let e : none ≡ some n = rw (not_zero, bad) at h in cc e
    | inr good ↦
        let e : some next ≡ some n = rw (not_zero, good) at h in
        inr (ground arith, ground arith, sym (some-injective e))
  ]
]

Sub-cases :
    (o : Option (Smb2Header × ℕ))
    → (o ≡ none) ⊎ ((hdr : Smb2Header) × (n : ℕ) × (o ≡ some (hdr, n)))
Sub-cases none = inl refl
Sub-cases (some (hdr, n)) = inr (hdr, n, refl)

module _ ⦃b : Binrw⦄ where
  -- A frame, and the requests with their headers that it is made of.
  pub data Chain : List ℕ → List (Smb2Header × List ℕ) → Type 0 where
    done : Chain [] []
    last :
        {hdr : Smb2Header} {body frame : List ℕ}
        → 64 ≤ length frame
        → parse frame ≡ Error.ok (hdr, body)
        → hdr.next_command ≡ 0
        → Chain frame ((hdr, frame) ∷ [])
    link :
        {hdr : Smb2Header} {body frame : List ℕ} {rest : List (Smb2Header × List ℕ)}
        → parse frame ≡ Error.ok (hdr, body)
        → 64 ≤ hdr.next_command
        → hdr.next_command ≤ length frame
        → Chain (drop hdr.next_command frame) rest
        → Chain frame ((hdr, take hdr.next_command frame) ∷ rest)

  split_sub-last :
      {hdr : Smb2Header} {body : List ℕ} (frame : List ℕ)
      → 64 ≤ length frame
      → parse frame ≡ Error.ok (hdr, body)
      → hdr.next_command ≡ 0
      → split_sub frame ≡ some (hdr, length frame)
  unfolding split_sub sub_length
  split_sub-last frame long e z = rw (not_ltb (length frame) 64 long, e, z) refl

  split_sub-link :
      {hdr : Smb2Header} {body : List ℕ} (frame : List ℕ)
      → parse frame ≡ Error.ok (hdr, body)
      → 64 ≤ hdr.next_command
      → hdr.next_command ≤ length frame
      → split_sub frame ≡ some (hdr, hdr.next_command)
  unfolding split_sub sub_length
  split_sub-link {hdr} frame e long fits =
      rw
        (
          not_ltb (length frame) 64 (omega arith),
          e,
          positive hdr.next_command (omega arith),
          not_ltb hdr.next_command 64 long,
          not_ltb (length frame) hdr.next_command fits,
        )
        refl

  with_length-inv :
      {hdr0 hdr : Smb2Header} {n : ℕ} (o : Option ℕ)
      → with_length hdr0 o ≡ some (hdr, n)
      → (hdr0 ≡ hdr) × (o ≡ some n)
  with_length-inv none h = cc
  with_length-inv (some m) h = (cc, cc)

  sub_of-inv :
      {hdr : Smb2Header} {n : ℕ} (frame : List ℕ) (r : Error.ProtoResult (Smb2Header × List ℕ))
      → sub_of frame r ≡ some (hdr, n)
      → (body : List ℕ) × (r ≡ Error.ok (hdr, body)) × Reach hdr.next_command (length frame) n
  sub_of-inv frame (Error.err e) h = cc
  sub_of-inv {hdr} {n} frame (Error.ok (hdr0, body)) h =
      let (same, len) = with_length-inv (sub_length hdr0.next_command (length frame)) h in
      (body, rw same, rw same at (sub_length-inv hdr0.next_command (length frame) n len))

  split_sub-inv :
      {hdr : Smb2Header} {n : ℕ} (frame : List ℕ)
      → split_sub frame ≡ some (hdr, n)
      → (64 ≤ length frame)
        × ((body : List ℕ) × (parse frame ≡ Error.ok (hdr, body))
            × Reach hdr.next_command (length frame) n)
  unfolding split_sub
  split_sub-inv {hdr} {n} frame h = elim (Bool-cases (ltb (length frame) 64)) [
    | inl short ↦ let no : none ≡ some (hdr, n) = rw short at h in cc no
    | inr long ↦ (ground arith, sub_of-inv frame (parse frame) (rw long at h))
  ]

  module _ {ℓ} (St : Type ℓ) (dispatch_one : St → List ℕ → ℕ → St × Option (List ℕ)) where
    abbrev pub push : Option (List ℕ) → List (List ℕ) → List (List ℕ)
    push none rs = rs
    push (some r) rs = r ∷ rs

    -- The requests of a chain, one after the other.
    abbrev pub run_chain : St → Context → List (Smb2Header × List ℕ) → St × List (List ℕ)
    run_chain st ctx [] = (st, [])
    run_chain st ctx ((hdr, sub) ∷ rest) =
        let (sub', hdr') = inherited ctx sub hdr in
        let (st', response) = dispatch_one st sub' ctx.compound_ordinal in
        let (st'', rs) = run_chain st' (next_context ctx hdr' response) rest in
        (st'', push response rs)

    with_response-responses :
        (o : Option (List ℕ)) (rs : List (List ℕ))
        → with_response o (responses rs) ≡ responses (push o rs)
    with_response-responses none rs = refl
    with_response-responses (some r) rs = refl

    pub dispatch_loop-Chain :
        (fuel : ℕ) (st : St) (ctx : Context) {frame : List ℕ} {subs : List (Smb2Header × List ℕ)}
        → Chain frame subs
        → length frame < fuel
        → dispatch_loop St dispatch_one fuel st ctx frame
          ≡ ((run_chain st ctx subs).0, responses (run_chain st ctx subs).1)
    unfolding dispatch_loop dispatch_sub
    dispatch_loop-Chain zero st ctx c enough = absurd (omega arith)
    dispatch_loop-Chain (suc fuel) st ctx done enough = refl
    dispatch_loop-Chain (suc fuel) st ctx {frame = []} (last long e z) enough = absurd (omega arith)
    dispatch_loop-Chain (suc fuel) st ctx {frame = x ∷ xs} (last {hdr} long e z) enough =
        let hdr' : Smb2Header = record hdr { next_command = 0 } in
        rw (split_sub-last (x ∷ xs) long e z, z, take_all xs)
          (ap
            (λ (r : FrameResult).
              ((dispatch_one st (inherited ctx (x ∷ xs) hdr').0 ctx.compound_ordinal).0, r))
            (with_response-responses
              (dispatch_one st (inherited ctx (x ∷ xs) hdr').0 ctx.compound_ordinal).1 []))
    dispatch_loop-Chain (suc fuel) st ctx {frame = []} (link e long fits c) enough =
        absurd (omega arith)
    dispatch_loop-Chain (suc fuel) st ctx {frame = x ∷ xs} (link {hdr} e long fits c) enough =
        rw
          (
            split_sub-link (x ∷ xs) e long fits,
            positive hdr.next_command (omega arith),
            dispatch_loop-Chain fuel _ _ c (omega (arith, length-drop hdr.next_command (x ∷ xs))),
            with_response-responses _ _,
          )
          refl

    with_response-rejected : (o : Option (List ℕ)) → with_response o rejected ≡ rejected
    with_response-rejected none = refl
    with_response-rejected (some r) = refl

    -- A frame is a chain, or the loop gives up on it.
    abbrev pub Settled : ℕ → List ℕ → Type ℓ
    Settled fuel frame =
        ((subs : List (Smb2Header × List ℕ)) × Chain frame subs)
        ⊎ ((st : St) (ctx : Context)
            → (dispatch_loop St dispatch_one fuel st ctx frame).1 ≡ rejected)

    Settled-tail :
        (fuel x : ℕ) (xs : List ℕ) (hdr : Smb2Header) (body : List ℕ)
        → parse (x ∷ xs) ≡ Error.ok (hdr, body)
        → 64 ≤ hdr.next_command
        → hdr.next_command ≤ length (x ∷ xs)
        → Settled fuel (drop hdr.next_command (x ∷ xs))
        → Settled (suc fuel) (x ∷ xs)
    unfolding dispatch_loop dispatch_sub
    Settled-tail fuel x xs hdr body e long fits (inl (subs, c)) =
        inl ((hdr, take hdr.next_command (x ∷ xs)) ∷ subs, link e long fits c)
    Settled-tail fuel x xs hdr body e long fits (inr bad) = inr λ st ctx.
        rw
          (
            split_sub-link (x ∷ xs) e long fits,
            positive hdr.next_command (omega arith),
            bad _ _,
            with_response-rejected _,
          )
          refl

    pub dispatch_loop-Settled :
        (fuel : ℕ) (frame : List ℕ) → length frame < fuel → Settled fuel frame
    unfolding dispatch_loop dispatch_sub Reach
    dispatch_loop-Settled zero frame enough = absurd (omega arith)
    dispatch_loop-Settled (suc fuel) [] enough = inl ([], done)
    dispatch_loop-Settled (suc fuel) (x ∷ xs) enough = elim (Sub-cases (split_sub (x ∷ xs))) [
      | inl e ↦ inr λ st ctx. rw e refl
      | inr (hdr, n, e) ↦
          let (long, (body, p, reach)) = split_sub-inv (x ∷ xs) e in
          elim reach [
            | inl (z, _) ↦ inl ((hdr, x ∷ xs) ∷ [], last long p z)
            | inr (far, fits, _) ↦ Settled-tail fuel x xs hdr body p far fits (
                dispatch_loop-Settled fuel (drop hdr.next_command (x ∷ xs))
                  (omega (arith, length-drop hdr.next_command (x ∷ xs))))
          ]
    ]

    -- The loop over the requests of a frame ends, whatever the bytes are: fuel above the
    -- length of the frame is never used up.
    pub dispatch_loop_returns :
        (fuel : ℕ) (st : St) (ctx : Context) (frame : List ℕ)
        → length frame < fuel
        → (dispatch_loop St dispatch_one fuel st ctx frame).1 ≢ out_of_fuel
    dispatch_loop_returns fuel st ctx frame enough stopped =
        elim (dispatch_loop-Settled fuel frame enough) [
          | inl (subs, c) ↦
              let ran : responses (run_chain st ctx subs).1 ≡ out_of_fuel =
                sym (ap (λ (r : St × FrameResult). r.1) (dispatch_loop-Chain fuel st ctx c enough))
                ∙ stopped in
              cc ran
          | inr bad ↦ let lost : rejected ≡ out_of_fuel = sym (bad st ctx) ∙ stopped in cc lost
        ]

-- The whole of a frame: its requests in order, and their responses in one answer.
module _ {ℓ} (S : Storage) (W : Type ℓ)
    (dispatch_one : Connection S × W → List ℕ → ℕ → (Connection S × W) × Option (List ℕ))
    ⦃b : Binrw⦄ ⦃m : Macs⦄ where
  pub dispatch_compound-run_chain :
      (st : Connection S × W) (frame : List ℕ) (subs : List (Smb2Header × List ℕ))
      → 64 ≤ length frame
      → Chain frame subs
      → dispatch_compound S W dispatch_one st frame
        ≡ answer_frame S (
          (run_chain (Connection S × W) dispatch_one st new_context subs).0,
          responses (run_chain (Connection S × W) dispatch_one st new_context subs).1,
        )
  unfolding dispatch_compound
  dispatch_compound-run_chain st frame subs long ch =
      rw
        (
          not_ltb (length frame) 64 long,
          dispatch_loop-Chain (Connection S × W) dispatch_one (suc (length frame)) st new_context ch
              (omega arith),
        )
        refl
