-- ===== src/Path/Valid.antt =====
-- What a path that was parsed may hold.
use rust_smb_server.Prelude.{
  ℕ, ◌==◌, not, ◌≤◌, ◌≡◌, ◌≢◌, refl, ap, Bool, true, false, Bool-cases, inl, inr, is_empty, list_eq,
  list_eq_iff, Option, none, some, List, [], ◌∷◌, ◌++◌, All, All-append, All-unappend, All-mono,
  All-both, arith,
}
use rust_smb_server.Prelude.Text.{Str, codes, any, eq_ignore_ascii_case, split, split_once}
use rust_smb_server.Error.{SmbResult, ok, ◌>>=◌, ◌>>◌, bind-eq-ok, ok-injective}
use rust_smb_server.Path.{
  SmbPath, root, reject_if, is_separator, is_forbidden, is_reserved_dos_name, strip_separator, pop,
  or_invalid, earlier_colon, check_component, push_parts, push_last, host, parse_parts,
  parse_trimmed, parse_components, join, split_stream_selector, selected, named, stream_of,
}
use rust_smb_server.Path.Parts.{
  Free, any-Free, contains-Free, split-All, SplitsAt, split_once-SplitsAt, Pops, pop-Pops,
}

-- A character that no backend treats specially: printable, no separator, no colon, no wildcard.
pub record IsPlainChar (c : ℕ) : Type 0 where
  pub printable : 0x20 ≤ c
  pub backslash : c ≢ b'\\'
  pub slash : c ≢ b'/'
  pub colon : c ≢ b':'
  pub less : c ≢ b'<'
  pub greater : c ≢ b'>'
  pub quote : c ≢ b'"'
  pub bar : c ≢ b'|'
  pub question : c ≢ b'?'
  pub star : c ≢ b'*'

-- A name of one directory level, which stays below the directory that it is looked up in.
pub record IsComponent (name : Str) : Type 0 where
  pub nonempty : name ≢ []
  pub dot : name ≢ codes "."
  pub dot_dot : name ≢ codes ".."
  pub not_reserved : is_reserved_dos_name name ≡ false
  pub plain : All IsPlainChar name

abbrev pub IsStream : List Str → Option Str → Type 0
IsStream components none = Unit
IsStream components (some s) = (s ≢ []) × All IsPlainChar s × (components ≢ [])

-- What a backend may rely on.
pub record IsValid (p : SmbPath) : Type 0 where
  pub components : All IsComponent p.components
  pub stream : IsStream p.components p.stream

-- The tests of the parser, by which it leaves characters out.
abbrev pub Passed : ℕ → Type 0
Passed c = ((is_forbidden c ≡ false) × (is_separator c ≡ false)) × ((c == b':') ≡ false)

plain_of_tests : (c : ℕ) → Passed c → IsPlainChar c
plain_of_tests c h = ground arith

pub tests_of_plain : (c : ℕ) → IsPlainChar c → Passed c
tests_of_plain c h = ground arith

reject_if-eq-ok {ℓ} :
    {A : Type ℓ} (t : Bool) (m : SmbResult A) {a : A}
    → (reject_if t >> m) ≡ ok a
    → (t ≡ false) × (m ≡ ok a)
reject_if-eq-ok true m h = cc
reject_if-eq-ok false m h = (refl, h)

reject_if-eq_tt : (t : Bool) → reject_if t ≡ ok tt → t ≡ false
reject_if-eq_tt true h = cc
reject_if-eq_tt false h = refl

not_empty : (s : Str) → is_empty s ≡ false → s ≢ []
not_empty s h e = cc (ap is_empty e)

list_eq-false : (s t : Str) → list_eq s t ≡ false → s ≢ t
list_eq-false s t h e = cc ((list_eq_iff s t).1 e)

-- A name that passes the tests, of characters that passed theirs.
IsComponent-of_tests :
    (name : Str)
    → is_empty name ≡ false
    → list_eq name (codes ".") ≡ false
    → check_component name ≡ ok tt
    → All Passed name
    → IsComponent name
unfolding check_component
IsComponent-of_tests name nonempty dot checked chars =
    let (dots, e) = reject_if-eq-ok (list_eq name (codes "..")) _ checked in
    record {
      nonempty = not_empty name nonempty;
      dot = list_eq-false name (codes ".") dot;
      dot_dot = list_eq-false name (codes "..") dots;
      not_reserved = reject_if-eq_tt (is_reserved_dos_name name) e;
      plain = All-mono Passed IsPlainChar plain_of_tests name chars;
    }

push_parts-IsComponent :
    (parts cs : List Str) → All (All Passed) parts → push_parts parts ≡ ok cs → All IsComponent cs
unfolding push_parts
push_parts-IsComponent [] cs h e = rw (← ok-injective e) tt
push_parts-IsComponent (raw ∷ parts) cs h e =
    let (nonempty, e1) = reject_if-eq-ok (is_empty raw) _ e in
    elim (Bool-cases (list_eq raw (codes "."))) [
      | inl dot ↦ push_parts-IsComponent parts cs h.1 (rw dot at e1)
      | inr other ↦
          let e2 : (check_component raw
                >> (push_parts parts >>= λ components. ok (raw ∷ components)))
              ≡ ok cs =
            rw other at e1 in
          let (_, checked, e3) = bind-eq-ok (check_component raw) _ e2 in
          let (rest, pushed, e4) = bind-eq-ok (push_parts parts) _ e3 in
          rw (← ok-injective e4) (
            IsComponent-of_tests raw nonempty other checked h.0,
            push_parts-IsComponent parts rest h.1 pushed,
          )
    ]

-- A stream, if there is one, has a name of plain characters.
abbrev HasPlain : Option Str → Type 0
HasPlain none = Unit
HasPlain (some s) = (s ≢ []) × All IsPlainChar s

host-IsValid :
    (cs : List Str) (stream : Option Str) (p : SmbPath)
    → All IsComponent cs
    → host cs stream ≡ ok p
    → IsValid p
unfolding host
host-IsValid cs none p h e = rw (← ok-injective e) (record { components = h; stream = tt })
host-IsValid cs (some s) p h e = cc

append-ne-nil : (cs : List Str) (name : Str) → cs ++ name ∷ [] ≢ []
append-ne-nil [] name e = cc
append-ne-nil (c ∷ cs) name e = cc

hosted :
    (cs : List Str) (name : Str) (stream : Option Str)
    → HasPlain stream
    → IsStream (cs ++ name ∷ []) stream
hosted cs name none h = tt
hosted cs name (some s) h = let (nonempty, plain) = h in (nonempty, plain, append-ne-nil cs name)

-- What is pushed last: a component, or nothing for `.`.
push_last-IsValid :
    (cs : List Str) (name : Str) (stream : Option Str) (p : SmbPath)
    → All IsComponent cs
    → All Passed name
    → HasPlain stream
    → push_last cs name stream ≡ ok p
    → IsValid p
unfolding push_last
push_last-IsValid cs name stream p hcs hname hstream e =
    let (nonempty, e1) = reject_if-eq-ok (is_empty name) _ e in
    elim (Bool-cases (list_eq name (codes "."))) [
      | inl dot ↦ host-IsValid cs stream p hcs (rw dot at e1)
      | inr other ↦
          let e2 : (check_component name
                >> ok (record { components = cs ++ name ∷ []; stream = stream }))
              ≡ ok p =
            rw other at e1 in
          let (_, checked, e3) = bind-eq-ok (check_component name) _ e2 in
          rw (← ok-injective e3) (record {
            components =
                All-append IsComponent cs (name ∷ []) hcs
                  (IsComponent-of_tests name nonempty other checked hname, tt);
            stream = hosted cs name stream hstream;
          })
    ]

-- The last part: its name and its stream have no colon left.
abbrev Last : Str → Type 0
Last = All (λ c. (is_forbidden c ≡ false) × (is_separator c ≡ false))

stream_of-HasPlain : (t : Str) → All Passed t → HasPlain (stream_of t)
unfolding stream_of
stream_of-HasPlain [] h = tt
stream_of-HasPlain (c ∷ t) h =
    ((λ nil. cc nil), All-mono Passed IsPlainChar plain_of_tests (c ∷ t) h)

Passed-before :
    (s front back : Str)
    → Last s
    → s ≡ front ++ b':' ∷ back
    → Free (λ c. c == b':') front
    → All Passed front × Last back
Passed-before s front back h e free =
    let (a, b) =
      All-unappend (λ c. (is_forbidden c ≡ false) × (is_separator c ≡ false)) front (b':' ∷ back)
        (rw e at h) in
    (All-both _ _ front a free, b.1)

selected-HasPlain :
    (rest : Str) (o : Option (Str × Str)) (stream : Option Str)
    → Last rest
    → SplitsAt b':' rest o
    → selected rest o ≡ ok stream
    → HasPlain stream
unfolding selected
selected-HasPlain rest none stream h at e =
    rw (← ok-injective e) (stream_of-HasPlain rest (All-both _ _ rest h at))
selected-HasPlain rest (some (s, ty)) stream h at e =
    let (_, e1) = reject_if-eq-ok (not (eq_ignore_ascii_case ty (codes "$DATA"))) _ e in
    rw (← ok-injective e1) (stream_of-HasPlain s (Passed-before rest s ty h at.0 at.1).0)

named-Passed :
    (last : Str) (o : Option (Str × Str)) (name : Str) (stream : Option Str)
    → Last last
    → SplitsAt b':' last o
    → named last o ≡ ok (name, stream)
    → All Passed name × HasPlain stream
unfolding named
named-Passed last none name stream h at e =
    let same : last ≡ name = cc e in
    let primary : none ≡ stream = cc e in rw (← same, ← primary) (All-both _ _ last h at, tt)
named-Passed last (some (front, rest)) name stream h at e =
    let (s, e1, e2) = bind-eq-ok (selected rest (split_once b':' rest)) _ e in
    let (passed, others) = Passed-before last front rest h at.0 at.1 in
    let same : front ≡ name = cc e2 in
    let chosen : s ≡ stream = cc e2 in
    rw (← same, ← chosen)
      (
        passed,
        selected-HasPlain rest (split_once b':' rest) s others (split_once-SplitsAt b':' rest) e1,
      )

earlier_colon-Free :
    (parts : List Str) → earlier_colon parts ≡ false → All Last parts → All (All Passed) parts
unfolding earlier_colon
earlier_colon-Free [] e h = tt
earlier_colon-Free (raw ∷ parts) e h = (
  All-both _ _ raw h.0 (contains-Free b':' raw (ground arith)),
  earlier_colon-Free parts (ground arith) h.1,
)

parse_parts-IsValid :
    (parts : List Str) (last : Str) (p : SmbPath)
    → All Last parts
    → Last last
    → parse_parts parts last ≡ ok p
    → IsValid p
unfolding parse_parts split_stream_selector
parse_parts-IsValid parts last p hparts hlast e =
    let (colons, e1) = reject_if-eq-ok (earlier_colon parts) _ e in
    let ((name, stream), chosen, e2) = bind-eq-ok (named last (split_once b':' last)) _ e1 in
    let (cs, pushed, e3) = bind-eq-ok (push_parts parts) _ e2 in
    let (plain, hosts) =
      named-Passed last (split_once b':' last) name stream hlast (split_once-SplitsAt b':' last)
        chosen in
    push_last-IsValid cs name stream p
      (push_parts-IsComponent parts cs (earlier_colon-Free parts colons hparts) pushed) plain hosts
      e3

from_popped :
    (parts : List Str) (o : Option (List Str × Str)) (p : SmbPath)
    → All Last parts
    → Pops parts o
    → (or_invalid o >>= λ x. parse_parts x.0 x.1) ≡ ok p
    → IsValid p
unfolding or_invalid
from_popped parts none p h popped e = cc
from_popped parts (some (front, last)) p h popped e =
    let (a, b) = All-unappend Last front (last ∷ []) (rw popped at h) in
    parse_parts-IsValid front last p a b.0 e

parse_trimmed-IsValid : (s : Str) (p : SmbPath) → parse_trimmed s ≡ ok p → IsValid p
unfolding parse_trimmed
parse_trimmed-IsValid s p e =
    let (clean, e1) = reject_if-eq-ok (any is_forbidden s) _ e in
    let parts : List Str = split is_separator s in
    let clean_parts : All Last parts =
      All-mono _ Last (λ part h. All-both _ _ part h.0 h.1) parts
        (split-All is_separator (λ c. is_forbidden c ≡ false) s (any-Free is_forbidden s clean)) in
    from_popped parts (pop parts) p clean_parts (pop-Pops parts) e1

root-IsValid : IsValid root
root-IsValid = record { components = tt; stream = tt }

-- A path that the parser accepts is valid: each component is not empty, is neither . nor ..,
-- is no reserved DOS name and has only plain characters (no separator, colon, wildcard or
-- control character); a stream has a non-empty plain name and a component to stand on.
pub parse_components-IsValid : (s : Str) (p : SmbPath) → parse_components s ≡ ok p → IsValid p
unfolding parse_components
parse_components-IsValid s p e = elim (Bool-cases (is_empty (strip_separator s))) [
  | inl bare ↦ let same : ok root ≡ ok p = rw bare at e in rw (← ok-injective same) root-IsValid
  | inr more ↦ parse_trimmed-IsValid (strip_separator s) p (rw more at e)
]

IsStream-append :
    (front back : List Str) (stream : Option Str)
    → IsStream back stream
    → IsStream (front ++ back) stream
IsStream-append front back none h = tt
IsStream-append [] back (some s) h = h
IsStream-append (c ∷ front) back (some s) h = (h.0, h.1, λ nil. cc nil)

-- join of a valid path with any string gives a valid path where it succeeds.
pub join-IsValid :
    (p : SmbPath) (last : Str) (q : SmbPath) → IsValid p → join p last ≡ ok q → IsValid q
unfolding join
join-IsValid p last q v e =
    let (extra, parsed, e1) = bind-eq-ok (parse_components last) _ e in
    let w : IsValid extra = parse_components-IsValid last extra parsed in
    rw (← ok-injective e1) (record {
      components = All-append IsComponent p.components extra.components v.components w.components;
      stream = IsStream-append p.components extra.components extra.stream w.stream;
    })
