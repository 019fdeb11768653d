-- ===== src/Utils/Wildcard/Spec.antt =====
-- What a pattern means, with no loop: `?` is one character, `*` any sequence, and the letters
-- are compared without their case.
use rust_smb_server.Prelude.{
  ℕ, ◌==◌, if◌then◌else◌, ◌≡◌, refl, ap, Bool, true, false, ◌&&◌, ◌||◌, Bool-cases, inl, inr,
  is_empty, [], ◌∷◌, ◌++◌, arith,
}
use rust_smb_server.Prelude.Text.{Str}
use rust_smb_server.Utils.Wildcard.{takes}

-- The name is a front that the star takes, and a back for the rest of the pattern; any other
-- character of the pattern takes one of the name.
abbrev pub Matches : Str → Str → Type 0
Matches [] n = n ≡ []
Matches (a ∷ p) n =
    if a == b'*'
    then ((front : Str) × (back : Str) × (n ≡ front ++ back) × Matches p back)
    else ((c : ℕ) × (rest : Str) × (n ≡ c ∷ rest) × (takes a c ≡ true) × Matches p rest)

-- Some suffix passes a test.
abbrev pub some_suffix : (Str → Bool) → Str → Bool
some_suffix f [] = f []
some_suffix f (c ∷ n) = f (c ∷ n) || some_suffix f n

abbrev pub takes_one : (Str → Bool) → ℕ → Str → Bool
takes_one f a [] = false
takes_one f a (c ∷ n) = takes a c && f n

-- The meaning as a test.
unfoldable pub wild : Str → Str → Bool
wild [] n = is_empty n
wild (a ∷ p) n = let f = wild p in if a == b'*' then some_suffix f n else takes_one f a n

pub some_suffix_sound :
    (f : Str → Bool) (n : Str)
    → some_suffix f n ≡ true
    → (front : Str) × (back : Str) × (n ≡ front ++ back) × (f back ≡ true)
some_suffix_sound f [] h = ([], [], refl, h)
some_suffix_sound f (c ∷ n) h = elim (Bool-cases (f (c ∷ n))) [
  | inl now ↦ ([], c ∷ n, refl, now)
  | inr later ↦
      let (front, back, e, g) = some_suffix_sound f n (rw later at h) in
      (c ∷ front, back, ap (◌∷◌ c) e, g)
]

-- A suffix that passes is found behind any front.
pub some_suffix-append :
    (f : Str → Bool) (front back : Str) → f back ≡ true → some_suffix f (front ++ back) ≡ true
some_suffix-append f [] [] h = h
some_suffix-append f [] (c ∷ back) h = rw h
some_suffix-append f (c ∷ front) back h = ground (arith, some_suffix-append f front back h)

takes_one_sound :
    (f : Str → Bool) (a : ℕ) (n : Str)
    → takes_one f a n ≡ true
    → (c : ℕ) × (rest : Str) × (n ≡ c ∷ rest) × (takes a c ≡ true) × (f rest ≡ true)
takes_one_sound f a [] h = cc
takes_one_sound f a (c ∷ n) h = (c, n, refl, ground arith, ground arith)

-- The test decides the meaning.
pub wild_sound : (p n : Str) → wild p n ≡ true → Matches p n
unfolding wild
wild_sound [] [] h = refl
wild_sound [] (c ∷ n) h = cc
wild_sound (a ∷ p) n h = elim (Bool-cases (a == b'*')) [
  | inl star ↦
      let (front, back, e, g) = some_suffix_sound (wild p) n (rw star at h) in
      rw star (front, back, e, wild_sound p back g)
  | inr other ↦
      let (c, rest, e, t, g) = takes_one_sound (wild p) a n (rw other at h) in
      rw other (c, rest, e, t, wild_sound p rest g)
]

pub wild_complete : (p n : Str) → Matches p n → wild p n ≡ true
unfolding wild
wild_complete [] n h = rw h
wild_complete (a ∷ p) n h = elim (Bool-cases (a == b'*')) [
  | inl star ↦
      let (front, back, e, m) = rw star at h in
      rw (star, e) (some_suffix-append (wild p) front back (wild_complete p back m))
  | inr other ↦ let (c, rest, e, t, m) = rw other at h in rw (other, e, t) (wild_complete p rest m)
]
