-- ===== src/Path/Parts.antt =====
-- How `split`, `split_once` and `pop` take a string or a list apart, and what they keep.
use mathlib.Core.Option
use rust_smb_server.Prelude.{
  ==_iff, ℕ, ◌==◌, ◌≡◌, refl, ap, Bool, true, false, Bool-cases, inl, inr, contains, Option, none,
  some, List, [], ◌∷◌, ◌++◌, All, arith,
}
use rust_smb_server.Prelude.Text.{Str, any, split, split_parts, split_once}
use rust_smb_server.Path.{pop}

-- A test fails on every character.
abbrev pub Free : (ℕ → Bool) → Str → Type 0
Free p = All (λ c. p c ≡ false)

pub any-Free : (p : ℕ → Bool) (s : Str) → any p s ≡ false → Free p s
any-Free p [] h = tt
any-Free p (c ∷ s) h = (ground arith, any-Free p s (ground arith))

pub Free-any : (p : ℕ → Bool) (s : Str) → Free p s → any p s ≡ false
Free-any p [] h = refl
Free-any p (c ∷ s) h = rw h.0 (Free-any p s h.1)

pub contains-Free : (x : ℕ) (s : Str) → contains x s ≡ false → Free (λ c. c == x) s
contains-Free x [] h = tt
contains-Free x (c ∷ s) h = (ground arith, contains-Free x s (ground arith))

module _ {κ} (p : ℕ → Bool) (Q : ℕ → Type κ) where
  -- The parts have the characters of the string, less the separators.
  split_parts-All :
      (s : Str)
      → All Q s
      → All Q (split_parts p s).0
        × Free p (split_parts p s).0
        × All (λ part. All Q part × Free p part) (split_parts p s).1
  unfolding split_parts
  split_parts-All [] h = (tt, tt, tt)
  split_parts-All (c ∷ s) h =
      let (first, free, others) = split_parts-All s h.1 in
      elim (Bool-cases (p c)) [
        | inl e ↦ rw e (tt, tt, ((first, free), others))
        | inr e ↦ rw e ((h.0, first), (e, free), others)
      ]

  pub split-All : (s : Str) → All Q s → All (λ part. All Q part × Free p part) (split p s)
  unfolding split
  split-All s h = let (first, free, others) = split_parts-All s h in ((first, free), others)

pub split_parts-Free : (p : ℕ → Bool) (s : Str) → Free p s → split_parts p s ≡ (s, [])
unfolding split_parts
split_parts-Free p [] h = refl
split_parts-Free p (c ∷ s) h = rw (split_parts-Free p s h.1, h.0)

-- A separator behind a string that has none starts the next part.
pub split_parts-append :
    (p : ℕ → Bool) (a : Str) (c : ℕ) (s : Str)
    → Free p a
    → p c ≡ true
    → split_parts p (a ++ c ∷ s) ≡ (a, (split_parts p s).0 ∷ (split_parts p s).1)
unfolding split_parts
split_parts-append p [] c s h e = rw e
split_parts-append p (x ∷ a) c s h e = rw (split_parts-append p a c s h.1 e, h.0)

pub split_once-none : (x : ℕ) (s : Str) → Free (λ c. c == x) s → split_once x s ≡ none
unfolding split_once
split_once-none x [] h = refl
split_once-none x (c ∷ s) h = rw (split_once-none x s h.1, h.0)

-- What `split_once` answers: no separator, or the first one and what stands round it.
abbrev pub SplitsAt : ℕ → Str → Option (Str × Str) → Type 0
SplitsAt x s none = Free (λ c. c == x) s
SplitsAt x s (some p) = (s ≡ p.0 ++ x ∷ p.1) × Free (λ c. c == x) p.0

SplitsAt-cons :
    (x c : ℕ) (s : Str) (o : Option (Str × Str))
    → (c == x) ≡ false
    → SplitsAt x s o
    → SplitsAt x (c ∷ s) (Option.map (λ p. (c ∷ p.0, p.1)) o)
SplitsAt-cons x c s none e h = (e, h)
SplitsAt-cons x c s (some p) e h = (ap (◌∷◌ c) h.0, (e, h.1))

pub split_once-SplitsAt : (x : ℕ) (s : Str) → SplitsAt x s (split_once x s)
unfolding split_once
split_once-SplitsAt x [] = tt
split_once-SplitsAt x (c ∷ s) = elim (Bool-cases (c == x)) [
  | inl e ↦ rw e (ap (λ (y : ℕ). y ∷ s) ((==_iff c x).0 e), tt)
  | inr e ↦ rw e (SplitsAt-cons x c s (split_once x s) e (split_once-SplitsAt x s))
]

-- `pop` answers nothing for the empty list only.
abbrev pub Pops : List Str → Option (List Str × Str) → Type 0
Pops parts none = parts ≡ []
Pops parts (some p) = parts ≡ p.0 ++ p.1 ∷ []

Pops-cons :
    (part : Str) (parts : List Str) (o : Option (List Str × Str))
    → Pops parts o
    → Pops
        (part ∷ parts)
        (elim o [ none ↦ some ([], part) | some (front, last) ↦ some (part ∷ front, last) ])
Pops-cons part parts none h = ap (◌∷◌ part) h
Pops-cons part parts (some p) h = ap (◌∷◌ part) h

pub pop-Pops : (parts : List Str) → Pops parts (pop parts)
unfolding pop
pop-Pops [] = refl
pop-Pops (part ∷ parts) = Pops-cons part parts (pop parts) (pop-Pops parts)

pub pop-append : (front : List Str) (last : Str) → pop (front ++ last ∷ []) ≡ some (front, last)
unfolding pop
pop-append [] last = refl
pop-append (part ∷ front) last = rw (pop-append front last)
