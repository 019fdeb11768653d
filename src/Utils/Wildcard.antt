-- ===== src/Utils/Wildcard.antt =====
-- `dos_pattern_matches` of utils.rs. An index into the pattern or the name is the suffix that starts
-- there, so that `index < len` is that the suffix is not empty.
pub mod Spec
pub mod Terminates
pub mod Correct
use rust_smb_server.Prelude.{
  ℕ, zero, suc, ◌+◌, ◌*◌, ◌==◌, if◌then◌else◌, Bool, true, false, ◌||◌, list_eq, is_empty, length,
  Option, none, some, List, [], ◌∷◌,
}
use rust_smb_server.Prelude.Text.{Str, codes, to_ascii_lowercase}

-- `a.eq_ignore_ascii_case(&c)` of two characters.
unfoldable pub same_letter : ℕ → ℕ → Bool
same_letter a c = to_ascii_lowercase a == to_ascii_lowercase c

unfoldable pub takes : ℕ → ℕ → Bool
takes a c = a == b'?' || same_letter a c

-- `pattern_index < pattern.len() && (pattern[pattern_index] == '?' || ...)`
unfoldable pub takes_next : Str → ℕ → Bool
takes_next [] c = false
takes_next (a ∷ p) c = takes a c

unfoldable pub star_next : Str → Bool
star_next [] = false
star_next (a ∷ p) = a == b'*'

abbrev pub tail : Str → Str
tail [] = []
tail (c ∷ s) = s

-- The last loop, and the test behind it: only stars are left.
unfoldable pub only_stars : Str → Bool
only_stars [] = true
only_stars (a ∷ p) = if a == b'*' then only_stars p else false

-- The loop over the name: the pattern and the name that are left, and the place to go back to.
-- `none` is no value of the program: the fuel ran out.
unfoldable pub scan : ℕ → Str → Str → Option (Str × Str) → Option Bool
unfolding takes_next star_next only_stars
scan zero p n star = none
scan (suc fuel) p [] star = some (only_stars p)
scan (suc fuel) p (c ∷ n) star =
    let matched = scan fuel (tail p) n star in
    let starred = scan fuel (tail p) (c ∷ n) (some (tail p, c ∷ n)) in
    let back : Option Bool = elim star [
      | none ↦ some false
      | some (sp, sn) ↦ scan fuel sp (tail sn) (some (sp, tail sn))
    ] in
    if takes_next p c then matched else if star_next p then starred else back

-- Each round shortens the pattern, or the name behind the last star.
abbrev pub enough : Str → Str → ℕ
enough p n = suc ((length p + 1) * length n + length p)

unfoldable pub dos_pattern_matches_inner : Str → Str → Option Bool
unfolding scan
dos_pattern_matches_inner p n = scan (enough p n) p n none

unfoldable pub dos_pattern_matches : Str → Str → Option Bool
unfolding dos_pattern_matches_inner
dos_pattern_matches p n =
    if is_empty p || (list_eq p (codes "*") || list_eq p (codes "*.*"))
    then some true
    else dos_pattern_matches_inner p n
