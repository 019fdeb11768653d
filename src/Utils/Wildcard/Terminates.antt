-- ===== src/Utils/Wildcard/Terminates.antt =====
-- The loop of the matcher ends on every pattern and every name.
use rust_smb_server.Prelude.{
  ℕ, zero, suc, ◌+◌, ◌*◌, ◌≤◌, ◌<◌, ◌≡◌, refl, Bool, false, Bool-cases, inl, inr, length, Option,
  none, some, [], ◌∷◌, arith,
}
use rust_smb_server.Prelude.Text.{Str}
use rust_smb_server.Utils.Wildcard.{
  scan, tail, takes_next, star_next, only_stars, enough, dos_pattern_matches_inner,
}
use native.Mathlib.Nat.{mul-le-mul_left}

-- The length of what the star may still give up, once there is a star.
abbrev behind : Str → Option (Str × Str) → ℕ
behind n none = length n
behind n (some (sp, sn)) = length sn

-- The place to go back to lies before the current one, in the pattern that the loop was given.
abbrev Fits : ℕ → Str → Option (Str × Str) → Type 0
Fits w n none = Unit
Fits w n (some (sp, sn)) = (length sp < w) × (length n ≤ length sn)

Fits-shorter : (w c : ℕ) (n : Str) (star : Option (Str × Str)) → Fits w (c ∷ n) star → Fits w n star
Fits-shorter w c n none f = tt
Fits-shorter w c n (some (sp, sn)) f = (f.0, omega arith)

behind_shorter : (c : ℕ) (n : Str) (star : Option (Str × Str)) → behind n star ≤ behind (c ∷ n) star
behind_shorter c n none = omega arith
behind_shorter c n (some (sp, sn)) = omega arith

behind_here :
    (w c : ℕ) (n : Str) (star : Option (Str × Str))
    → Fits w (c ∷ n) star
    → length n + 1 ≤ behind (c ∷ n) star
behind_here w c n none f = omega arith
behind_here w c n (some (sp, sn)) f = omega arith

-- Going back gives up a character of the name behind the star.
back_total :
    (fuel w c : ℕ) (p n : Str) (star : Option (Str × Str))
    → Fits w (c ∷ n) star
    → w * behind (c ∷ n) star + length p < suc fuel
    → (again : (sp sn : Str)
        → length sp < w
        → length n ≤ length sn
        → w * length sn + length sp < fuel
        → (r : Bool) × (scan fuel sp sn (some (sp, sn)) ≡ some r))
    → (r : Bool) × ((elim star [
      | none ↦ some false
      | some (sp, sn) ↦ scan fuel sp (tail sn) (some (sp, tail sn))
    ])
        ≡ some r)
back_total fuel w c p n none fits h again = (false, refl)
back_total fuel w c p n (some (sp, [])) fits h again = absurd (omega arith)
back_total fuel w c p n (some (sp, d ∷ sn)) fits h again =
    again sp sn fits.0 (omega arith) (omega arith)

scan_total :
    (fuel w : ℕ) (p n : Str) (star : Option (Str × Str))
    → length p < w
    → Fits w n star
    → w * behind n star + length p < fuel
    → (r : Bool) × (scan fuel p n star ≡ some r)
unfolding scan
scan_total zero w p n star hp fits h = absurd (omega arith)
scan_total (suc fuel) w p [] star hp fits h = (only_stars p, refl)
scan_total (suc fuel) w [] (c ∷ n) star hp fits h =
    back_total fuel w c [] n star fits h
      (λ sp sn a b m. scan_total fuel w sp sn (some (sp, sn)) a (a, omega arith) m)
scan_total (suc fuel) w (a ∷ p) (c ∷ n) star hp fits h = elim (Bool-cases (takes_next (a ∷ p) c)) [
  | inl taken ↦ rw taken (
      scan_total fuel w p n star (omega arith) (Fits-shorter w c n star fits)
        (omega (arith, mul-le-mul_left w (behind_shorter c n star))))
  | inr other ↦ rw other (elim (Bool-cases (star_next (a ∷ p))) [
    | inl starred ↦ rw starred (
        scan_total fuel w p (c ∷ n) (some (p, c ∷ n)) (omega arith) (omega arith, omega arith)
          (omega (arith, mul-le-mul_left w (behind_here w c n star fits))))
    | inr last ↦ rw last (
        back_total fuel w c (a ∷ p) n star fits h
          (λ sp sn l b m. scan_total fuel w sp sn (some (sp, sn)) l (l, omega arith) m))
  ])
]

-- The loop of the wildcard matcher answers on every pattern and name within the fuel
-- (|pattern| + 1) * |name| + |pattern| + 1.
pub dos_pattern_matches_inner_total :
    (p n : Str) → (r : Bool) × (dos_pattern_matches_inner p n ≡ some r)
unfolding dos_pattern_matches_inner
dos_pattern_matches_inner_total p n =
    scan_total (enough p n) (length p + 1) p n none (omega arith) tt (omega arith)
