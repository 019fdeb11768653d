-- ===== src/Path.antt =====
-- path.rs: the paths that reach a backend.
pub mod Tests
pub mod Parts
pub mod Valid
pub mod Units
pub mod Display
use rust_smb_server.Prelude.{
  ℕ, ◌==◌, ltb, leb, if◌then◌else◌, not, ◌&&◌, ◌||◌, Bool, true, false, list_eq, contains, is_empty,
  length, take, get_or, Option, none, some, List, [], ◌∷◌, ◌++◌,
}
use rust_smb_server.Prelude.Text.{
  Str, codes, any, split, split_once, rsplit_once, uppercase, eq_ignore_ascii_case, as_bytes,
  join as join_parts, from_utf16 as string_from_utf16,
}
use rust_smb_server.Error.{SmbResult, ok, err, name_invalid, ◌>>=◌, ◌>>◌}

pub record SmbPath : Type 0 where
  pub components : List Str
  pub stream : Option Str

abbrev pub root : SmbPath
root = record { components = []; stream = none }

-- `return Err(SmbError::NameInvalid)` where the test holds.
abbrev pub reject_if : Bool → SmbResult (Unit {0})
reject_if true = err name_invalid
reject_if false = ok tt

abbrev pub is_separator : ℕ → Bool
is_separator c = c == b'\\' || c == b'/'

pub strip_separator : Str → Str
strip_separator [] = []
strip_separator (c ∷ s) = if c == b'\\' then s else if c == b'/' then s else c ∷ s

abbrev pub is_forbidden : ℕ → Bool
is_forbidden c = (c == 0 || (leb 0x01 c && leb c 0x1f)) || contains c (codes "<>\"|?*")

unfoldable pub matches_com_or_lpt : Str → Bool
matches_com_or_lpt s =
    let bytes = as_bytes s in
    let last = get_or bytes 3 0 in
    let prefix = take 3 bytes in
    if not (length bytes == 4)
    then false
    else if not (leb b'1' last && leb last b'9')
    then false
    else list_eq prefix (codes "COM") || list_eq prefix (codes "LPT")

-- Up to the last dot.
stem : Str → Str
stem s = elim (rsplit_once b'.' s) [ some (front, _) ↦ front | none ↦ s ]

unfoldable pub is_reserved_dos_name : Str → Bool
unfolding stem matches_com_or_lpt
is_reserved_dos_name s =
    let upper = uppercase (stem s) in
    (list_eq upper (codes "CON")
      || list_eq upper (codes "PRN")
      || list_eq upper (codes "AUX")
      || list_eq upper (codes "NUL"))
    || matches_com_or_lpt upper

pub stream_of : Str → Option Str
stream_of s = if is_empty s then none else some s

-- The selector behind the first colon: `stream`, or `stream:type` with the type `$DATA`.
pub selected : Str → Option (Str × Str) → SmbResult (Option Str)
selected rest none = ok (stream_of rest)
selected rest (some (s, ty)) = do
  reject_if (not (eq_ignore_ascii_case ty (codes "$DATA")))
  ok (stream_of s)

pub named : Str → Option (Str × Str) → SmbResult (Str × Option Str)
named last none = ok (last, none)
named last (some (name, rest)) = do s ← selected rest (split_once b':' rest); ok (name, s)

unfoldable pub split_stream_selector : Str → SmbResult (Str × Option Str)
unfolding named selected stream_of
split_stream_selector last = named last (split_once b':' last)

-- `raw_parts.pop()`: all but the last part, and the last.
pub pop : List Str → Option (List Str × Str)
pop [] = none
pop (part ∷ parts) = elim (pop parts) [
  | none ↦ some ([], part)
  | some (front, last) ↦ some (part ∷ front, last)
]

-- `:` in any part but the last is refused.
pub earlier_colon : List Str → Bool
earlier_colon [] = false
earlier_colon (raw ∷ parts) = contains b':' raw || earlier_colon parts

-- The tests that a component passes before it is pushed.
pub check_component : Str → SmbResult (Unit {0})
check_component raw = do reject_if (list_eq raw (codes "..")); reject_if (is_reserved_dos_name raw)

-- The loop over all parts but the last: `.` is skipped.
pub push_parts : List Str → SmbResult (List Str)
push_parts [] = ok []
push_parts (raw ∷ parts) =
    let rest = push_parts parts in
    do
      reject_if (is_empty raw)
      if list_eq raw (codes ".")
          then rest
          else do check_component raw; components ← rest; ok (raw ∷ components)

-- `.` is the directory itself, which hosts no stream.
pub host : List Str → Option Str → SmbResult SmbPath
host components none = ok (record { components = components; stream = none })
host components (some _) = err name_invalid

-- The last name: `.` adds no component, and hosts no stream.
pub push_last : List Str → Str → Option Str → SmbResult SmbPath
push_last components last_name stream = do
  reject_if (is_empty last_name)
  if list_eq last_name (codes ".") then host components stream else do
    check_component last_name
    ok (record { components = components ++ last_name ∷ []; stream = stream })

-- `ok_or(SmbError::NameInvalid)?`
pub or_invalid : Option (List Str × Str) → SmbResult (List Str × Str)
or_invalid none = err name_invalid
or_invalid (some p) = ok p

-- From the parts: all but the last, and the last.
pub parse_parts : List Str → Str → SmbResult SmbPath
parse_parts parts last = do
  reject_if (earlier_colon parts)
  (last_name, stream) ← split_stream_selector last
  components ← push_parts parts
  push_last components last_name stream

pub parse_trimmed : Str → SmbResult SmbPath
parse_trimmed trimmed = do
  reject_if (any is_forbidden trimmed)
  (parts, last) ← or_invalid (pop (split is_separator trimmed))
  parse_parts parts last

unfoldable pub parse_components : Str → SmbResult SmbPath
unfolding strip_separator parse_trimmed parse_parts or_invalid pop earlier_colon push_parts
    push_last check_component host
parse_components s =
    let trimmed = strip_separator s in if is_empty trimmed then ok root else parse_trimmed trimmed

-- `SmbPath::from_utf16`
unfoldable pub from_utf16 : List ℕ → SmbResult SmbPath
from_utf16 units = elim (string_from_utf16 units) [
  | none ↦ err name_invalid
  | some s ↦ parse_components s
]

unfoldable pub is_root : SmbPath → Bool
is_root p = is_empty p.components

unfoldable pub parent : SmbPath → Option SmbPath
unfolding is_root pop
parent p =
    if is_root p
    then none
    else some (record {
      components = elim (pop p.components) [ none ↦ [] | some (front, _) ↦ front ];
      stream = none;
    })

unfoldable pub file_name : SmbPath → Option Str
unfolding pop
file_name p = elim (pop p.components) [ none ↦ none | some (_, last) ↦ some last ]

unfoldable pub join : SmbPath → Str → SmbResult SmbPath
join p last = do
  extra ← parse_components last
  ok (record { components = p.components ++ extra.components; stream = extra.stream })

unfoldable pub display_backslash : SmbPath → Str
display_backslash p = join_parts (codes "\\") p.components
