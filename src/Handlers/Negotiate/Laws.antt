-- ===== src/Handlers/Negotiate/Laws.antt =====
-- The dialect that is chosen.
use rust_smb_server.Prelude.{
  ℕ, ◌≤◌, ltb, ◌≡◌, ◌⊎◌, refl, sym, ◌∙◌, true, false, Bool-cases, inl, inr, Option, none, some,
  List, [], ◌∷◌, contains, All, arith,
}
use rust_smb_server.Handlers.Negotiate.{supported, higher, choose_dialect}

higher_bounds :
    (d : ℕ) (o : Option ℕ)
    → (c : ℕ) × (higher d o ≡ some c)
      × (d ≤ c)
      × ((a : ℕ) → o ≡ some a → a ≤ c)
      × ((c ≡ d) ⊎ (o ≡ some c))
higher_bounds d none = (d, refl, omega arith, (λ a e. cc), inl refl)
higher_bounds d (some prev) = elim (Bool-cases (ltb prev d)) [
  | inl e ↦ (d, rw e refl, omega arith, (λ a same. let s : prev ≡ a = cc in ground arith), inl refl)
  | inr e ↦
      (prev, rw e refl, ground arith, (λ a same. let s : prev ≡ a = cc in omega arith), inr refl)
]

-- What may be said of a choice: of the one before the loop, and of the offers.
record Chosen (before : Option ℕ) (offered : List ℕ) (c : ℕ) : Type 0 where
  from : (before ≡ some c) ⊎ ((contains c offered ≡ true) × (contains c supported ≡ true))
  least : (a : ℕ) → before ≡ some a → a ≤ c
  highest : All (λ (d : ℕ). contains d supported ≡ true → d ≤ c) offered

contains_here : (c d : ℕ) (rest : List ℕ) → d ≡ c → contains c (d ∷ rest) ≡ true
contains_here c d rest same = ground arith

contains_later : (c d : ℕ) (rest : List ℕ) → contains c rest ≡ true → contains c (d ∷ rest) ≡ true
contains_later c d rest h = ground arith

passed :
    (before : Option ℕ) (d : ℕ) (rest : List ℕ) (c : ℕ)
    → (before ≡ some c) ⊎ ((contains c rest ≡ true) × (contains c supported ≡ true))
    → (before ≡ some c) ⊎ ((contains c (d ∷ rest) ≡ true) × (contains c supported ≡ true))
passed before d rest c (inl e) = inl e
passed before d rest c (inr (h, known)) = inr (contains_later c d rest h, known)

-- An offer that is supported, and the rest of the loop.
taken :
    (before : Option ℕ) (d : ℕ) (rest : List ℕ) (c : ℕ)
    → contains d supported ≡ true
    → Chosen (higher d before) rest c
    → Chosen before (d ∷ rest) c
taken before d rest c known later =
    let (top, same, over, all_before, source) = higher_bounds d before in
    let reached : top ≤ c = later.least top same in
    record {
      from = elim later.from [
        | inl e ↦
            let is_top : some top ≡ some c = sym same ∙ e in
            let t : top ≡ c = cc in
            elim source [
              | inl is_d ↦
                  let here : d ≡ c = sym is_d ∙ t in
                  inr (contains_here c d rest here, rw here at known)
              | inr kept ↦ inl (kept ∙ is_top)
            ]
        | inr (h, sup) ↦ inr (contains_later c d rest h, sup)
      ];
      least = λ a e. let below : a ≤ top = all_before a e in omega arith;
      highest = ((λ _. omega arith), later.highest);
    }

choose_dialect-Chosen :
    (before : Option ℕ) (offered : List ℕ) (c : ℕ)
    → choose_dialect before offered ≡ some c
    → Chosen before offered c
unfolding choose_dialect
choose_dialect-Chosen before [] c h = record {
  from = inl h;
  least = λ a e. let s : some a ≡ some c = sym e ∙ h in let t : a ≡ c = cc in omega arith;
  highest = tt;
}
choose_dialect-Chosen before (d ∷ rest) c h = elim (Bool-cases (contains d supported)) [
  | inl e ↦
      let later : Chosen (higher d before) rest c =
        choose_dialect-Chosen (higher d before) rest c (rw e at h) in
      taken before d rest c e later
  | inr e ↦
      let later : Chosen before rest c = choose_dialect-Chosen before rest c (rw e at h) in
      record {
        from = passed before d rest c later.from;
        least = later.least;
        highest = ((λ yes. let no : true ≡ false = sym yes ∙ e in cc no), later.highest);
      }
]

-- Where no dialect is chosen, none that is offered is supported.
choose_dialect-none :
    (before : Option ℕ) (offered : List ℕ)
    → choose_dialect before offered ≡ none
    → (before ≡ none) × All (λ (d : ℕ). contains d supported ≡ false) offered
unfolding choose_dialect
choose_dialect-none before [] h = (h, tt)
choose_dialect-none before (d ∷ rest) h = elim (Bool-cases (contains d supported)) [
  | inl e ↦
      let (none_before, _) = choose_dialect-none (higher d before) rest (rw e at h) in
      let (c, same, _, _, _) = higher_bounds d before in
      let no : some c ≡ none = sym same ∙ none_before in cc no
  | inr e ↦
      let (none_before, others) = choose_dialect-none before rest (rw e at h) in
      (none_before, (e, others))
]

-- The answer to an offer: the highest dialect that both sides know, or none.
abbrev pub Highest : List ℕ → Option ℕ → Type 0
Highest offered none = All (λ (d : ℕ). contains d supported ≡ false) offered
Highest offered (some c) =
    (contains c offered ≡ true)
    × (contains c supported ≡ true)
    × All (λ (d : ℕ). contains d supported ≡ true → d ≤ c) offered

choose_dialect-Highest_at :
    (offered : List ℕ) (r : Option ℕ) → choose_dialect none offered ≡ r → Highest offered r
choose_dialect-Highest_at offered none h = (choose_dialect-none none offered h).1
choose_dialect-Highest_at offered (some c) h =
    let chosen : Chosen none offered c = choose_dialect-Chosen none offered c h in
    elim chosen.from [ inl e ↦ cc e | inr (offer, known) ↦ (offer, known, chosen.highest) ]

-- The dialect that NEGOTIATE chooses is offered by the client, supported by the server and not
-- below any offer that is supported; and where none is chosen, no offer is supported.
pub choose_dialect-Highest : (offered : List ℕ) → Highest offered (choose_dialect none offered)
choose_dialect-Highest offered =
    choose_dialect-Highest_at offered (choose_dialect none offered) refl
