-- ===== src/Server/Builder/Table.antt =====
-- The first loops of `build`: the user table has an entry for every name of the builder's order, and no
-- check panics.
use rust_smb_server.Prelude.{
  is_empty, ◌≡◌, ◌≢◌, refl, Bool, true, false, Bool-cases, Option-cases, inl, inr, Option, none,
  some, List, [], ◌∷◌, ◌++◌, All, list_eq, list_eq_iff, list_eq_refl,
}
use rust_smb_server.Prelude.Assoc.{
  lookup, insert, contains_key, has, lookup-insert, contains_key-insert, All-insert,
}
use rust_smb_server.Prelude.Text.{Str, codes, eq_ignore_ascii_case}
use rust_smb_server.Access.{Users, str_eq}
use rust_smb_server.Server.State
use rust_smb_server.Server.State.{
  UserCreds, Share, ShareBindings, new_bindings, add_bindings, new_shares, ServerState, new_state,
}
use rust_smb_server.Server.Config.{first_unknown, validate_user_name}
use rust_smb_server.Server.Config.Consistent.{UserTable}
use rust_smb_server.Server.Builder.{
  BuildError, BuildResult, ok, err, panicked, ◌>>=◌, fail_if, empty_user_name, reserved_user_name,
  check_user_names, known, get, user_table, required_addr,
}

-- A string stands among others, or at their end.
pub has-append :
    (name other : Str) (names : List Str)
    → has name names ≡ true
    → has name (names ++ other ∷ []) ≡ true
unfolding has
has-append name other [] h = cc
has-append name other (n ∷ names) h = elim (Bool-cases (list_eq n name)) [
  | inl same ↦ rw same refl
  | inr differs ↦ rw differs (has-append name other names (rw differs at h))
]

pub has_last : (name : Str) (names : List Str) → has name (names ++ name ∷ []) ≡ true
unfolding has
has_last name [] = rw (list_eq_refl name) refl
has_last name (n ∷ names) = elim (Bool-cases (list_eq n name)) [
  | inl same ↦ rw same refl
  | inr differs ↦ rw differs (has_last name names)
]

-- Where every key is listed, a key that is there is listed.
pub key-has {ℓ} :
    {V : Type ℓ} (name : Str) (names : List Str) (m : List (Str × V))
    → All (λ p. has p.0 names ≡ true) m
    → contains_key name m ≡ true
    → has name names ≡ true
unfolding lookup
key-has name names [] h here = cc
key-has name names ((n, v) ∷ m) h here = elim (Bool-cases (list_eq n name)) [
  | inl same ↦ let e : n ≡ name = (list_eq_iff n name).0 same in rw (← e) h.0
  | inr differs ↦ key-has name names m h.1 (rw differs at here)
]

pub first_unknown-known {ℓ} :
    {V : Type ℓ} (users : Users) (table : List (Str × V))
    → first_unknown users table ≡ none
    → All (λ u. contains_key u.0 table ≡ true) users
unfolding first_unknown
first_unknown-known [] table h = tt
first_unknown-known ((name, access) ∷ users) table h = elim (Bool-cases (contains_key name table)) [
  | inl here ↦ (here, first_unknown-known users table (rw here at h))
  | inr missing ↦ let no : some name ≡ none = rw missing at h in cc no
]

-- To go on behind a step that succeeded.
pub bind_then {ℓ κ μ} :
    {A : Type ℓ} {B : Type κ} {C : Type μ} (m : BuildResult A) (f : A → BuildResult B) {b : B}
    → (m >>= f) ≡ ok b
    → ((a : A) → m ≡ ok a → f a ≡ ok b → C)
    → C
bind_then (ok a) f h next = next a refl h
bind_then (err e) f h next = cc
bind_then panicked f h next = cc

pub ok-injective {ℓ} : {A : Type ℓ} {a b : A} → ok a ≡ ok b → a ≡ b
ok-injective h = cc

pub fail_if-ok :
    (test : Bool) (e : BuildError) {u : Unit {0}} → fail_if test e ≡ ok u → test ≡ false
fail_if-ok true e h = cc
fail_if-ok false e h = refl

-- A chain panics only where a step of it does.
pub bind-returns {ℓ κ} :
    {A : Type ℓ} {B : Type κ} (m : BuildResult A) (f : A → BuildResult B)
    → m ≢ panicked
    → ((a : A) → m ≡ ok a → f a ≢ panicked)
    → (m >>= f) ≢ panicked
bind-returns (ok a) f h k = k a refl
bind-returns (err e) f h k = λ p. cc p
bind-returns panicked f h k = λ p. h refl

pub fail_if-returns : (test : Bool) (e : BuildError) → fail_if test e ≢ panicked
fail_if-returns true e = λ p. cc p
fail_if-returns false e = λ p. cc p

pub check_user_names-returns : (names : List Str) → check_user_names names ≢ panicked
unfolding check_user_names
check_user_names-returns [] = λ p. cc p
check_user_names-returns (name ∷ names) =
    bind-returns (fail_if (is_empty name) empty_user_name) _ (fail_if-returns _ _) (λ _ _.
      bind-returns
        (fail_if (eq_ignore_ascii_case name (codes "anonymous")) (reserved_user_name name)) _
        (fail_if-returns _ _) (λ _ _. check_user_names-returns names))

pub known-returns : (share : Str) (o : Option Str) → known share o ≢ panicked
known-returns share none = λ p. cc p
known-returns share (some name) = λ p. cc p

pub required_addr-returns : (o : Option Str) → required_addr o ≢ panicked
required_addr-returns none = λ p. cc p
required_addr-returns (some addr) = λ p. cc p

pub check_user_names-valid :
    (names : List Str) {u : Unit {0}}
    → check_user_names names ≡ ok u
    → All (λ name. validate_user_name name ≡ State.ConfigResult.ok) names
unfolding check_user_names validate_user_name
check_user_names-valid [] h = tt
check_user_names-valid (name ∷ names) h =
    bind_then (fail_if (is_empty name) empty_user_name) _ h (λ _ filled h.
      bind_then (fail_if (eq_ignore_ascii_case name (codes "anonymous")) (reserved_user_name name))
        _ h
        (λ _ free h. (
          rw
              (
                fail_if-ok (is_empty name) empty_user_name filled,
                fail_if-ok (eq_ignore_ascii_case name (codes "anonymous")) (reserved_user_name name)
                    free,
              )
              refl,
          check_user_names-valid names h,
        )))

module _ (hash : Str → UserCreds) (passwords : List (Str × Str)) where
  -- The table is made, and no name is lost.
  pub record Tabled (names : List Str) (table t : UserTable) : Type 0 where
    pub made : user_table hash passwords names table ≡ ok t
    pub kept : (name : Str) → contains_key name table ≡ true → contains_key name t ≡ true
    pub listed : (name : Str) → has name names ≡ true → contains_key name t ≡ true

  pub user_table-Tabled :
      (names : List Str) (table : UserTable)
      → All (λ name. contains_key name passwords ≡ true) names
      → (t : UserTable) × Tabled names table t
  unfolding user_table has
  user_table-Tabled [] table h =
      (table, record { made = refl; kept = λ name k. k; listed = λ name k. cc })
  user_table-Tabled (name ∷ names) table h = elim (Option-cases (lookup name passwords)) [
    | inl missing ↦ let no : false ≡ true = rw missing at h.0 in cc no
    | inr (password, found) ↦
        let next : UserTable = insert name (hash password) table in
        let (t, rest) = user_table-Tabled names next h.1 in
        (
          t,
          record {
            made = rw found rest.made;
            kept = λ n k. rest.kept n (contains_key-insert name n (hash password) table k);
            listed = λ n k. elim (Bool-cases (list_eq name n)) [
              | inl same ↦ rest.kept n (rw (lookup-insert name n (hash password) table, same) refl)
              | inr differs ↦ rest.listed n (rw differs at k)
            ];
          },
        )
  ]

  pub user_table-valid {ℓ} :
      (P : Str → Type ℓ) (names : List Str) (table t : UserTable)
      → user_table hash passwords names table ≡ ok t
      → All P names
      → All (λ u. P u.0) table
      → All (λ u. P u.0) t
  unfolding user_table
  user_table-valid P [] table t made h k = let same : table ≡ t = cc made in rw same at k
  user_table-valid P (name ∷ names) table t made h k =
      bind_then (get (lookup name passwords)) _ made (λ password found made.
        user_table-valid P names (insert name (hash password) table) t made h.1
          (All-insert (λ u. P u.0) name (hash password) table h.0 k))
