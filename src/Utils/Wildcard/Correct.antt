-- ===== src/Utils/Wildcard/Correct.antt =====
-- Going back to the last star only loses no match: the loop decides what the pattern means, for
-- names that have no `*` themselves.
use rust_smb_server.Prelude.{
  ℕ, zero, suc, ◌≤◌, ◌<◌, ◌==◌, ◌≡◌, ◌≢◌, ◌↔◌, refl, sym, ap, ◌∙◌, ◌⊎◌, list_eq, list_eq_iff, Bool,
  true, false, ◌||◌, ◌&&◌, Bool-cases, inl, inr, is_empty, length, length-append, Option, none,
  some, [], ◌∷◌, All, arith,
}
use rust_smb_server.Prelude.Text.{Str, codes, to_ascii_lowercase}
use rust_smb_server.Utils.Wildcard.{
  scan, tail, enough, takes, same_letter, star_next, only_stars, dos_pattern_matches_inner,
  dos_pattern_matches,
}
use rust_smb_server.Utils.Wildcard.Spec.{
  Matches, wild, some_suffix, takes_one, some_suffix_sound, wild_sound, wild_complete,
}
use rust_smb_server.Utils.Wildcard.Terminates.{dos_pattern_matches_inner_total}

-- Names on the wire have no `*`.
abbrev pub StarFree : Str → Type 0
StarFree = All (λ c. c ≢ b'*')

star-takes : (a c : ℕ) → c ≢ b'*' → takes a c ≡ true → (a == b'*') ≡ false
unfolding takes same_letter to_ascii_lowercase
star-takes a c h t = ground arith

wild-nil : (p : Str) → wild p [] ≡ only_stars p
unfolding wild only_stars
wild-nil [] = refl
wild-nil (a ∷ p) = ground (arith, wild-nil p)

or_false : (b : Bool) → (b || false) ≡ b
or_false true = refl
or_false false = refl

-- The names behind the front of `sn` that one star has not taken yet.
abbrev later : (Str → Bool) → Str → Bool
later f [] = false
later f (c ∷ n) = some_suffix f n

-- What the loop has still to decide: a match from here, or one further on behind the last star.
abbrev answer : Str → Str → Option (Str × Str) → Bool
answer p n none = wild p n
answer p n (some (sp, sn)) = wild p n || later (wild sp) sn

-- `p` and `n` are what is left of `sp` and `sn` behind as many characters, none of them a star.
data Linked (p n : Str) : Str → Str → Type 0 where
  here : Linked p n p n
  after :
      {a c : ℕ} {sp sn : Str}
      → (a == b'*') ≡ false
      → Linked p n sp sn
      → Linked p n (a ∷ sp) (c ∷ sn)

Linked-next :
    (a c : ℕ) (p n sp sn : Str)
    → (a == b'*') ≡ false
    → Linked (a ∷ p) (c ∷ n) sp sn
    → Linked p n sp sn
Linked-next a c p n sp sn e here = after e here
Linked-next a c p n (x ∷ sp) (y ∷ sn) e (after f l) = after f (Linked-next a c p n sp sn e l)

some_suffix_mono :
    (f g : Str → Bool) (n : Str)
    → ((t : Str) → f t ≡ true → g t ≡ true)
    → some_suffix f n ≡ true
    → some_suffix g n ≡ true
some_suffix_mono f g [] m h = m [] h
some_suffix_mono f g (c ∷ n) m h = elim (Bool-cases (f (c ∷ n))) [
  | inl now ↦ rw (m (c ∷ n) now)
  | inr no_match ↦ ground (arith, some_suffix_mono f g n m (rw no_match at h))
]

some_suffix_self : (f : Str → Bool) (n : Str) → f n ≡ true → some_suffix f n ≡ true
some_suffix_self f [] h = h
some_suffix_self f (c ∷ n) h = rw h

some_suffix_idem :
    (g : Str → Bool) (n : Str) → some_suffix (some_suffix g) n ≡ true → some_suffix g n ≡ true
some_suffix_idem g [] h = h
some_suffix_idem g (c ∷ n) h = ground (arith, some_suffix_idem g n)

some_suffix-takes_one :
    (f : Str → Bool) (a : ℕ) (n : Str)
    → some_suffix (takes_one f a) n ≡ true
    → (some_suffix f (tail n) ≡ true) × (some_suffix f n ≡ true)
some_suffix-takes_one f a [] h = cc
some_suffix-takes_one f a (c ∷ n) h =
    ground (arith, some_suffix-takes_one f a n, some_suffix_self f n)

some_suffix-later : (f : Str → Bool) (n : Str) → some_suffix f n ≡ (f n || later f n)
some_suffix-later f [] = ground arith
some_suffix-later f (c ∷ n) = refl

later-some_suffix : (f : Str → Bool) (n : Str) → later f n ≡ true → some_suffix f n ≡ true
later-some_suffix f [] h = cc
later-some_suffix f (c ∷ n) h = ground arith

-- A match behind an older star goes through the newer one.
absorbed :
    (p n sp sn : Str)
    → star_next p ≡ true
    → Linked p n sp sn
    → some_suffix (wild sp) sn ≡ true
    → wild p n ≡ true
unfolding wild star_next
absorbed [] n sp sn s l h = cc
absorbed (a ∷ p) n sp sn s here h = rw s (
    some_suffix_idem (wild p) n
      (some_suffix_mono (wild (a ∷ p)) (some_suffix (wild p)) n (λ t k. rw s at k) h))
absorbed (a ∷ p) n (x ∷ sp) (y ∷ sn) s (after e l) h =
    absorbed (a ∷ p) n sp sn s l
      (some_suffix-takes_one (wild sp) x (y ∷ sn)
        (some_suffix_mono (wild (x ∷ sp)) (takes_one (wild sp) x) (y ∷ sn) (λ t k. rw e at k) h)).0

-- At the end of the name a match behind the star would need more characters than are left.
too_short : (p sp sn t : Str) → Linked p [] sp sn → length t < length sn → wild sp t ≡ true → ⊥
unfolding wild
too_short p sp sn t here lt h = absurd (omega arith)
too_short p (x ∷ sp) (y ∷ sn) [] (after e l) lt h =
    let k : takes_one (wild sp) x [] ≡ true = rw e at h in cc k
too_short p (x ∷ sp) (y ∷ sn) (d ∷ t) (after e l) lt h =
    let k : (takes x d && wild sp t) ≡ true = rw e at h in
    too_short p sp sn t l (omega arith) (ground arith)

nothing_later : (p sp sn : Str) → Linked p [] sp sn → later (wild sp) sn ≡ false
nothing_later p sp [] l = refl
nothing_later p sp (c ∷ sn) l = elim (Bool-cases (some_suffix (wild sp) sn)) [
  | inl e ↦
      let (front, back, eq, h) = some_suffix_sound (wild sp) sn e in
      absurd
        (too_short p sp (c ∷ sn) back l (omega (arith, ap length eq, length-append front back)) h)
  | inr e ↦ e
]

abbrev State : Str → Str → Option (Str × Str) → Type 0
State p n none = Unit
State p n (some (sp, sn)) = Linked p n sp sn × StarFree sn

-- `Linked` never goes past the end of the name.
Linked-nonempty : (p : Str) (c : ℕ) (n sp : Str) → Linked p (c ∷ n) sp [] → ⊥
Linked-nonempty p c n sp l = absurd (omega (arith, shorter p (c ∷ n) sp [] l))
  where
    shorter : (p n sp sn : Str) → Linked p n sp sn → length n ≤ length sn
    shorter p n sp sn here = omega arith
    shorter p n (x ∷ sp) (y ∷ sn) (after e l) = omega (arith, shorter p n sp sn l)

answer-taken :
    (a c : ℕ) (p n : Str) (star : Option (Str × Str))
    → (a == b'*') ≡ false
    → takes a c ≡ true
    → State (a ∷ p) (c ∷ n) star
    → (answer (a ∷ p) (c ∷ n) star ≡ answer p n star) × State p n star
unfolding wild
answer-taken a c p n none e t s = (rw (e, t), tt)
answer-taken a c p n (some (sp, sn)) e t s = (rw (e, t), (Linked-next a c p n sp sn e s.0, s.1))

answer-starred :
    (a : ℕ) (p n : Str) (star : Option (Str × Str))
    → (a == b'*') ≡ true
    → State (a ∷ p) n star
    → answer (a ∷ p) n star ≡ answer p n (some (p, n))
unfolding wild star_next
answer-starred a p n none e s = rw e (some_suffix-later (wild p) n)
answer-starred a p n (some (sp, sn)) e s =
    rw (e, ← some_suffix-later (wild p) n)
      (elim (Bool-cases (later (wild sp) sn)) [
        | inl behind ↦
            let found : some_suffix (wild p) n ≡ true =
              rw e at (absorbed (a ∷ p) n sp sn e s.0 (later-some_suffix (wild sp) sn behind)) in
            rw found
        | inr nothing ↦ rw nothing (or_false (some_suffix (wild p) n))
      ])

-- Going back, with the loop's answer from there.
back_correct :
    (c : ℕ) (p n : Str) (star : Option (Str × Str)) (r : Bool) (again : Str → Str → Option Bool)
    → wild p (c ∷ n) ≡ false
    → State p (c ∷ n) star
    → ((sp sn : Str) → StarFree sn → again sp sn ≡ some r → r ≡ answer sp sn (some (sp, sn)))
    → (elim star [ none ↦ some false | some (sp, sn) ↦ again sp (tail sn) ]) ≡ some r
    → r ≡ answer p (c ∷ n) star
back_correct c p n none r again no_match s ih e = ground arith
back_correct c p n (some (sp, [])) r again no_match s ih e = absurd (Linked-nonempty p c n sp s.0)
back_correct c p n (some (sp, d ∷ sn)) r again no_match s ih e =
    rw no_match (ih sp sn s.1.1 e ∙ sym (some_suffix-later (wild sp) sn))

-- The loop's answer, if it has fuel for one.
scan-answer :
    (fuel : ℕ) (p n : Str) (star : Option (Str × Str)) (r : Bool)
    → StarFree n
    → State p n star
    → scan fuel p n star ≡ some r
    → r ≡ answer p n star
unfolding scan
scan-answer zero p n star r h s e = cc
scan-answer (suc fuel) p [] none r h s e = rw (wild-nil p) (cc e)
scan-answer (suc fuel) p [] (some (sp, sn)) r h s e =
    rw (wild-nil p, nothing_later p sp sn s.0) (sym (cc e) ∙ sym (or_false (only_stars p)))
scan-answer (suc fuel) [] (c ∷ n) star r h s e =
    back_correct c [] n star r (λ sp sn. scan fuel sp sn (some (sp, sn))) (unfold wild in refl) s
      (λ sp sn f g. scan-answer fuel sp sn (some (sp, sn)) r f (here, f) g) e
scan-answer (suc fuel) (a ∷ p) (c ∷ n) star r h s e = elim (Bool-cases (takes a c)) [
  | inl taken ↦
      let plain : (a == b'*') ≡ false = star-takes a c h.0 taken in
      let (same, next) = answer-taken a c p n star plain taken s in
      let rest : scan fuel p n star ≡ some r = rw taken at e in
      rw same (scan-answer fuel p n star r h.1 next rest)
  | inr other ↦ elim (Bool-cases (a == b'*')) [
    | inl starred ↦
        let rest : scan fuel p (c ∷ n) (some (p, c ∷ n)) ≡ some r = rw (other, starred) at e in
        rw (answer-starred a p (c ∷ n) star starred s)
          (scan-answer fuel p (c ∷ n) (some (p, c ∷ n)) r h (here, h) rest)
    | inr plain ↦
        back_correct c (a ∷ p) n star r (λ sp sn. scan fuel sp sn (some (sp, sn)))
          (unfold wild in rw (plain, other)) s
          (λ sp sn f g. scan-answer fuel sp sn (some (sp, sn)) r f (here, f) g)
          (rw (other, plain) at e)
  ]
]

-- For a name without `*` the matcher answers, and it answers whether the pattern's meaning holds.
pub dos_pattern_matches_inner-wild :
    (p n : Str) → StarFree n → dos_pattern_matches_inner p n ≡ some (wild p n)
unfolding dos_pattern_matches_inner
dos_pattern_matches_inner-wild p n h =
    let (r, e) = dos_pattern_matches_inner_total p n in
    e ∙ ap some (scan-answer (enough p n) p n none r h tt e)

pub dos_pattern_matches_inner-Matches :
    (p n : Str) → StarFree n → (dos_pattern_matches_inner p n ≡ some true) ↔ Matches p n
dos_pattern_matches_inner-Matches p n h = (
  (λ e. wild_sound p n (cc (e, dos_pattern_matches_inner-wild p n h))),
  (λ m. dos_pattern_matches_inner-wild p n h ∙ ap some (wild_complete p n m)),
)

-- The patterns that match every name.
abbrev pub IsMatchAll : Str → Type 0
IsMatchAll p = (p ≡ []) ⊎ ((p ≡ codes "*") ⊎ (p ≡ codes "*.*"))

or_true : (b : Bool) → (b || true) ≡ true
or_true true = refl
or_true false = refl

shortcut : Str → Bool
shortcut p = is_empty p || (list_eq p (codes "*") || list_eq p (codes "*.*"))

shortcut_iff : (p : Str) → (shortcut p ≡ true) ↔ IsMatchAll p
unfolding shortcut
shortcut_iff [] = ((λ _. inl refl), (λ _. refl))
shortcut_iff (a ∷ p) = (
  (λ h. elim (Bool-cases (list_eq (a ∷ p) (codes "*"))) [
    | inl e ↦ inr (inl ((list_eq_iff (a ∷ p) (codes "*")).0 e))
    | inr e ↦ inr (inr ((list_eq_iff (a ∷ p) (codes "*.*")).0 (rw e at h)))
  ]),
  (λ m. elim m [
    | inl nil ↦ cc nil
    | inr (inl e) ↦ rw ((list_eq_iff (a ∷ p) (codes "*")).1 e)
    | inr (inr e) ↦
        rw ((list_eq_iff (a ∷ p) (codes "*.*")).1 e) (or_true (list_eq (a ∷ p) (codes "*")))
  ]),
)

-- On every pattern and every name without a star, dos_pattern_matches answers, and it answers
-- yes exactly where the pattern is empty, * or *.*, or the declarative meaning of the pattern
-- holds of the name.
pub dos_pattern_matches-Matches :
    (p n : Str)
    → StarFree n
    → (r : Bool) × (dos_pattern_matches p n ≡ some r) × ((r ≡ true) ↔ (IsMatchAll p ⊎ Matches p n))
unfolding dos_pattern_matches
dos_pattern_matches-Matches p n h = elim (Bool-cases (shortcut p)) [
  | inl all ↦ (true, unfold shortcut in rw all, ((λ _. inl ((shortcut_iff p).0 all)), (λ _. refl)))
  | inr other ↦ (
    wild p n,
    unfold shortcut in rw other (dos_pattern_matches_inner-wild p n h),
    (
      (λ e. inr (wild_sound p n e)),
      (λ e. elim e [ inl all ↦ cc (other, (shortcut_iff p).1 all) | inr m ↦ wild_complete p n m ]),
    ),
  )
]
