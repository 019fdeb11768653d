-- ===== src/Prelude/Text.antt =====
-- `str` and `char` of the standard library. A string is the list of its characters, and a
-- character is its code point.
use Prim.Native.Nat.{ℕ, ◌+◌, ◌-◌, ◌*◌, ◌/◌, ◌%◌}
use Prim.Native.Char.{code}
use Prim.Native.String.{String}
use mathlib.Core.Bool.{Bool, false, ◌&&◌, ◌||◌, not}
use mathlib.Core.Option.{Option, none, some}
use mathlib.Core.Option
use mathlib.Core.List.{List, [], ◌∷◌, ◌++◌, map}
use rust_smb_server.Prelude.Tests.{◌==◌, ltb, leb, if◌then◌else◌}
use rust_smb_server.Prelude.Lists.{list_eq}

abbrev pub Str : Type 0
Str = List ℕ

-- The characters of a literal.
abbrev pub codes : String → Str
codes String.[] = []
codes (String.◌∷◌ c s) = code c ∷ codes s

module _ (p : ℕ → Bool) where
  abbrev pub any : Str → Bool
  any [] = false
  any (c ∷ s) = p c || any s

  -- The parts between the characters that satisfy `p`: the first, and the others.
  unfoldable pub split_parts : Str → Str × List Str
  split_parts [] = ([], [])
  split_parts (c ∷ s) =
      let (part, others) = split_parts s in if p c then ([], part ∷ others) else (c ∷ part, others)

  -- `s.split(p)`
  unfoldable pub split : Str → List Str
  split s = let (part, others) = split_parts s in part ∷ others

-- `s.split_once(c)`: at the first `c`.
unfoldable pub split_once : ℕ → Str → Option (Str × Str)
split_once c [] = none
split_once c (x ∷ s) =
    if x == c then some ([], s) else Option.map (λ p. (x ∷ p.0, p.1)) (split_once c s)

-- `s.rsplit_once(c)`: at the last `c`.
unfoldable pub rsplit_once : ℕ → Str → Option (Str × Str)
rsplit_once c [] = none
rsplit_once c (x ∷ s) = elim (rsplit_once c s) [
  | some (a, b) ↦ some (x ∷ a, b)
  | none ↦ if x == c then some ([], s) else none
]

unfoldable pub to_ascii_uppercase : ℕ → ℕ
to_ascii_uppercase c = if leb b'a' c && leb c b'z' then c - 32 else c

unfoldable pub to_ascii_lowercase : ℕ → ℕ
to_ascii_lowercase c = if leb b'A' c && leb c b'Z' then c + 32 else c

unfoldable pub uppercase : Str → Str
unfolding to_ascii_uppercase
uppercase s = map to_ascii_uppercase s

unfoldable pub lowercase : Str → Str
unfolding to_ascii_lowercase
lowercase s = map to_ascii_lowercase s

unfoldable pub eq_ignore_ascii_case : Str → Str → Bool
unfolding lowercase
eq_ignore_ascii_case a b = list_eq (lowercase a) (lowercase b)

-- The UTF-8 bytes of a character, and of a string: what `len` and `as_bytes` see.
unfoldable pub utf8_char : ℕ → List ℕ
utf8_char c =
    if ltb c 0x80
    then c ∷ []
    else if ltb c 0x800
    then (0xc0 + c / 64) ∷ (0x80 + c % 64) ∷ []
    else if ltb c 0x10000
    then (0xe0 + c / 4096) ∷ (0x80 + c / 64 % 64) ∷ (0x80 + c % 64) ∷ []
    else (0xf0 + c / 262144) ∷ (0x80 + c / 4096 % 64) ∷ (0x80 + c / 64 % 64) ∷ (0x80 + c % 64) ∷ []

unfoldable pub as_bytes : Str → List ℕ
unfolding utf8_char
as_bytes [] = []
as_bytes (c ∷ s) = utf8_char c ++ as_bytes s

-- `parts.join(sep)`
unfoldable pub join : Str → List Str → Str
join sep [] = []
join sep (part ∷ []) = part
join sep (part ∷ other ∷ others) = part ++ (sep ++ join sep (other ∷ others))

-- `String::from_utf16`: a surrogate that has no partner is an error.
unfoldable pub from_utf16 : List ℕ → Option Str
from_utf16 [] = some []
from_utf16 (u ∷ []) = if leb 0xd800 u && leb u 0xdfff then none else some (u ∷ [])
from_utf16 (u ∷ v ∷ units) =
    let plain : Option Str = from_utf16 (v ∷ units) in
    let pair : Option Str = from_utf16 units in
    if not (leb 0xd800 u && leb u 0xdfff)
    then Option.map (◌∷◌ u) plain
    else if leb u 0xdbff && (leb 0xdc00 v && leb v 0xdfff)
    then Option.map (◌∷◌ (0x10000 + (u - 0xd800) * 0x400 + (v - 0xdc00))) pair
    else none

-- `s.encode_utf16()`
unfoldable pub encode_utf16 : Str → List ℕ
encode_utf16 [] = []
encode_utf16 (c ∷ s) =
    if ltb c 0x10000
    then c ∷ encode_utf16 s
    else (0xd800 + (c - 0x10000) / 0x400) ∷ (0xdc00 + (c - 0x10000) % 0x400) ∷ encode_utf16 s
