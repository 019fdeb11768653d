-- ===== src/Path/Display.antt =====
-- A valid path is displayed as a text that is parsed to the same path.
use rust_smb_server.Prelude.{
  ◌==◌, ◌≡◌, ◌≢◌, refl, ap, sym, ◌∙◌, false, Bool-cases, inl, inr, contains, is_empty, list_eq,
  list_eq_iff, Option, none, some, List, [], ◌∷◌, ◌++◌, All, All-append, All-unappend, All-mono,
  arith,
}
use rust_smb_server.Prelude.Text.{Str, codes, split, split_parts, join as join_parts}
use rust_smb_server.Error.{ok, ◌>>=◌}
use rust_smb_server.Path.{
  SmbPath, is_separator, is_forbidden, strip_separator, pop, or_invalid, earlier_colon,
  check_component, push_parts, push_last, parse_parts, parse_trimmed, parse_components,
  split_stream_selector, named, display_backslash,
}
use rust_smb_server.Path.Parts.{
  Free, Free-any, split_parts-Free, split_parts-append, split_once-none, Pops, pop-Pops,
}
use rust_smb_server.Path.Valid.{IsPlainChar, IsComponent, IsValid, tests_of_plain}

plain-separator : (s : Str) → All IsPlainChar s → Free is_separator s
plain-separator s h = All-mono _ _ (λ c k. (tests_of_plain c k).0.1) s h

plain-forbidden : (s : Str) → All IsPlainChar s → Free is_forbidden s
plain-forbidden s h = All-mono _ _ (λ c k. (tests_of_plain c k).0.0) s h

plain-colon : (s : Str) → All IsPlainChar s → Free (λ c. c == b':') s
plain-colon s h = All-mono _ _ (λ c k. (tests_of_plain c k).1) s h

abbrev joined : Str → List Str → Str
joined name names = join_parts (codes "\\") (name ∷ names)

-- The parts of the text are the components again.
split-joined :
    (name : Str) (names : List Str)
    → All IsComponent (name ∷ names)
    → split_parts is_separator (joined name names) ≡ (name, names)
unfolding join_parts
split-joined name [] h = split_parts-Free is_separator name (plain-separator name h.0.plain)
split-joined name (other ∷ names) h =
    split_parts-append is_separator name b'\\' (joined other names) (plain-separator name h.0.plain)
      refl
    ∙ ap (λ (p : Str × List Str). (name, p.0 ∷ p.1)) (split-joined other names h.1)

joined-forbidden :
    (name : Str) (names : List Str)
    → All IsComponent (name ∷ names)
    → Free is_forbidden (joined name names)
unfolding join_parts
joined-forbidden name [] h = plain-forbidden name h.0.plain
joined-forbidden name (other ∷ names) h =
    All-append _ name (b'\\' ∷ joined other names) (plain-forbidden name h.0.plain)
      (refl, joined-forbidden other names h.1)

list_eq_ne : (s t : Str) → s ≢ t → list_eq s t ≡ false
list_eq_ne s t h = elim (Bool-cases (list_eq s t)) [
  | inl e ↦ absurd (h ((list_eq_iff s t).0 e))
  | inr e ↦ e
]

is_empty_ne : (s : Str) → s ≢ [] → is_empty s ≡ false
is_empty_ne [] h = absurd (h refl)
is_empty_ne (c ∷ s) h = refl

checked : (name : Str) → IsComponent name → check_component name ≡ ok tt
unfolding check_component
checked name c = rw (list_eq_ne name (codes "..") c.dot_dot, c.not_reserved)

pushed : (names : List Str) → All IsComponent names → push_parts names ≡ ok names
unfolding push_parts
pushed [] h = refl
pushed (name ∷ names) h = rw (
  is_empty_ne name h.0.nonempty,
  list_eq_ne name (codes ".") h.0.dot,
  checked name h.0,
  pushed names h.1,
)

pushed_last :
    (names : List Str) (name : Str)
    → IsComponent name
    → push_last names name none ≡ ok (record { components = names ++ name ∷ []; stream = none })
unfolding push_last
pushed_last names name c =
    rw (is_empty_ne name c.nonempty, list_eq_ne name (codes ".") c.dot, checked name c)

no_colons : (names : List Str) → All IsComponent names → earlier_colon names ≡ false
unfolding earlier_colon
no_colons [] h = refl
no_colons (name ∷ names) h =
    rw (contains_free name (plain-colon name h.0.plain)) (no_colons names h.1)
  where
    contains_free : (s : Str) → Free (λ c. c == b':') s → contains b':' s ≡ false
    contains_free [] h = refl
    contains_free (c ∷ s) h = rw h.0 (contains_free s h.1)

parts_back :
    (names : List Str) (name : Str)
    → All IsComponent names
    → IsComponent name
    → parse_parts names name ≡ ok (record { components = names ++ name ∷ []; stream = none })
unfolding parse_parts split_stream_selector named
parts_back names name h c =
    rw (no_colons names h, split_once-none b':' name (plain-colon name c.plain), pushed names h)
      (pushed_last names name c)

-- A component does not begin with a separator, so none is stripped.
strip_joined :
    (name : Str) (names : List Str)
    → IsComponent name
    → (strip_separator (joined name names) ≡ joined name names)
      × (is_empty (joined name names) ≡ false)
unfolding strip_separator join_parts
strip_joined [] names h = absurd (h.nonempty refl)
strip_joined (c ∷ s) [] h = (ground (arith, h.plain.0), refl)
strip_joined (c ∷ s) (other ∷ names) h = (ground (arith, h.plain.0), refl)

popped_back :
    (parts : List Str) (o : Option (List Str × Str))
    → parts ≢ []
    → Pops parts o
    → All IsComponent parts
    → (or_invalid o >>= λ x. parse_parts x.0 x.1)
      ≡ ok (record { components = parts; stream = none })
unfolding or_invalid
popped_back parts none ne popped h = absurd (ne popped)
popped_back parts (some (front, last)) ne popped h =
    let (a, b) = All-unappend IsComponent front (last ∷ []) (rw popped at h) in
    rw popped (parts_back front last a b.0)

trimmed_back :
    (name : Str) (names : List Str)
    → All IsComponent (name ∷ names)
    → parse_trimmed (joined name names) ≡ ok (record { components = name ∷ names; stream = none })
unfolding parse_trimmed split
trimmed_back name names h =
    rw
      (
        Free-any is_forbidden (joined name names) (joined-forbidden name names h),
        split-joined name names h,
      )
      (popped_back (name ∷ names) (pop (name ∷ names)) (λ nil. cc nil) (pop-Pops (name ∷ names)) h)

components_back :
    (names : List Str)
    → All IsComponent names
    → parse_components (join_parts (codes "\\") names)
      ≡ ok (record { components = names; stream = none })
unfolding parse_components join_parts
components_back [] h = refl
components_back (name ∷ names) h =
    let (same, nonempty) = strip_joined name names h.0 in
    rw (same, nonempty) (trimmed_back name names h)

-- Parsing the text of a valid path without a stream gives the path back.
pub parse_components-display_backslash :
    (p : SmbPath) → IsValid p → p.stream ≡ none → parse_components (display_backslash p) ≡ ok p
unfolding display_backslash
parse_components-display_backslash p v e =
    components_back p.components v.components
    ∙ ap (λ (s : Option Str). ok (record { components = p.components; stream = s })) (sym e)
