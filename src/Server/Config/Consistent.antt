-- ===== src/Server/Config/Consistent.antt =====
-- The tables of the configuration agree: shares stand under their lower-case names, a public share
-- lists no users, the others list users that exist, and no user has a reserved name.
use rust_smb_server.Prelude.{
  some-injective, ◌≡◌, ◌⊎◌, refl, sym, ◌∙◌, true, false, ◌&&◌, not, is_empty, Bool-cases,
  Option-cases, inl, inr, Option, none, some, List, [], ◌∷◌, All, All-mono, All-both, list_eq,
  arith,
}
use rust_smb_server.Prelude.Assoc.{
  insert, remove, contains_key, contains_key-insert, contains_key-remove, remove-ne, All-remove,
  All-insert, All-modify,
}
use rust_smb_server.Prelude.Text.{Str, lowercase}
use rust_smb_server.Backend.{Storage}
use rust_smb_server.Access.{Access, ShareMode, is_public, mode_eq, Users, ShareAcl, str_eq}
use rust_smb_server.Server.State.{
  UserCreds, ConfigError, ConfigResult, ok, err, Share, ShareBindings, Shares, find, with_acl,
  insert_share, new_bindings, modify_acl, modify_all_acls, remove_share_entry, ServerState,
}
use rust_smb_server.Server.Config.{
  on_live, without_user, with_user, with_mode, validate_user_name, validate_share_name, add_user,
  forget_user, remove_user, insert_bindings, bindings_of_share, first_unknown, add_share,
  forget_share, remove_share, grant_on, grant_share_user, revoke_on, revoke_share_user, set_mode_on,
  set_share_mode,
}
use rust_smb_server.Server.Config.Laws.{early-keeps, list_eq-sym-false}

abbrev pub UserTable : Type 0
UserTable = List (Str × UserCreds)

-- Every user of the ACL is in the table.
abbrev pub AllKnown : UserTable → Users → Type 0
AllKnown table users = All (λ u. contains_key u.0 table ≡ true) users

abbrev pub ConsistentAcl : UserTable → ShareAcl → Type 0
ConsistentAcl table acl =
    ((is_public acl.mode && not (is_empty acl.users)) ≡ false) × AllKnown table acl.users

module _ (S : Storage) where
  abbrev pub ConsistentEntry : UserTable → Str × ShareBindings S → Type 0
  ConsistentEntry table p = (p.0 ≡ lowercase p.1.name) × ConsistentAcl table p.1.acl

  abbrev pub Consistent : ServerState S → Type 0
  Consistent st =
      All (λ u. validate_user_name u.0 ≡ ok) st.users × All (ConsistentEntry st.users) st.shares

AllKnown-insert :
    (table : UserTable) (name : Str) (creds : UserCreds) (users : Users)
    → AllKnown table users
    → AllKnown (insert name creds table) users
AllKnown-insert table name creds users h =
    All-mono (λ u. contains_key u.0 table ≡ true) _ (λ u. contains_key-insert name u.0 creds table)
      users h

AllKnown-remove :
    (table : UserTable) (name : Str) (users : Users)
    → AllKnown table users
    → AllKnown (remove name table) (remove name users)
AllKnown-remove table name users h =
    All-mono (λ u. (list_eq u.0 name ≡ false) × (contains_key u.0 table ≡ true)) _
      (λ u k. contains_key-remove name u.0 table (list_eq-sym-false u.0 name k.0) k.1)
      (remove name users)
      (All-both _ _ (remove name users) (remove-ne name users)
        (All-remove (λ u. contains_key u.0 table ≡ true) name users h))

first_unknown-none :
    (users : Users) (table : UserTable) → first_unknown users table ≡ none → AllKnown table users
unfolding first_unknown
first_unknown-none [] table h = tt
first_unknown-none ((name, access) ∷ users) table h = elim (Bool-cases (contains_key name table)) [
  | inl known ↦ (known, first_unknown-none users table (rw known at h))
  | inr unknown ↦ let no : some name ≡ none = rw unknown at h in cc no
]

mixed-remove :
    (mode : ShareMode) (name : Str) (users : Users)
    → (is_public mode && not (is_empty users)) ≡ false
    → (is_public mode && not (is_empty (remove name users))) ≡ false
unfolding remove
mixed-remove mode name [] h = h
mixed-remove mode name (u ∷ users) h =
    let closed : is_public mode ≡ false = ground arith in rw closed refl

validity : (r : ConfigResult) → (r ≡ ok) ⊎ ((e : ConfigError) × (r ≡ err e))
validity ok = inl refl
validity (err e) = inr (e, refl)

module _ (S : Storage) where
  pub add_user-Consistent :
      (hash : Str → UserCreds) (name password : Str) (st : ServerState S)
      → Consistent S st
      → Consistent S (add_user S hash name password st).1
  unfolding add_user
  add_user-Consistent hash name password st h = elim (validity (validate_user_name name)) [
    | inl valid ↦ rw valid (
      All-insert (λ u. validate_user_name u.0 ≡ ok) name (hash password) st.users valid h.0,
      All-mono (ConsistentEntry S st.users) _
          (λ p k. (k.0, (k.1.0, AllKnown-insert st.users name (hash password) p.1.acl.users k.1.1)))
          st.shares h.1,
    )
    | inr (e, invalid) ↦ rw invalid h
  ]

  modify_all_acls-Consistent :
      (table : UserTable) (name : Str) (shares : Shares S)
      → All (ConsistentEntry S table) shares
      → All (ConsistentEntry S (remove name table)) (modify_all_acls S (without_user name) shares)
  unfolding modify_all_acls
  modify_all_acls-Consistent table name [] h = tt
  modify_all_acls-Consistent table name ((key, b) ∷ shares) h = (
    (
      h.0.0,
      (
        mixed-remove b.acl.mode name b.acl.users h.0.1.0,
        AllKnown-remove table name b.acl.users h.0.1.1,
      ),
    ),
    modify_all_acls-Consistent table name shares h.1,
  )

  -- remove_user keeps the configuration consistent: the user leaves every ACL together with
  -- the table.
  pub remove_user-Consistent :
      (name : Str) (st : ServerState S) → Consistent S st → Consistent S (remove_user S name st).1
  unfolding remove_user forget_user on_live
  remove_user-Consistent name st h =
      early-keeps S (Consistent S) (validate_user_name name) st _ h
        (elim (Bool-cases (contains_key name st.users)) [
          | inl known ↦ rw known (
            All-remove (λ u. validate_user_name u.0 ≡ ok) name st.users h.0,
            modify_all_acls-Consistent st.users name st.shares h.1,
          )
          | inr unknown ↦ rw unknown h
        ])

  insert_bindings-Consistent :
      (b : ShareBindings S) (st : ServerState S)
      → ConsistentAcl st.users b.acl
      → Consistent S st
      → Consistent S (insert_bindings S b st).1
  unfolding insert_bindings insert_share
  insert_bindings-Consistent b st fits h =
      elim (Bool-cases (contains_key (lowercase b.name) st.shares)) [
        | inl taken ↦ rw taken h
        | inr fresh ↦ rw fresh (
          h.0,
          All-insert (ConsistentEntry S st.users) (lowercase b.name) b st.shares (refl, fits) h.1,
        )
      ]

  bindings-ConsistentAcl :
      (s : Share S) (table : UserTable)
      → (is_public s.mode && not (is_empty s.users)) ≡ false
      → first_unknown s.users table ≡ none
      → ConsistentAcl table (bindings_of_share S s).acl
  unfolding new_bindings
  bindings-ConsistentAcl s table fits known = (fits, first_unknown-none s.users table known)

  -- add_share keeps the configuration consistent: shares stand under their lower-case names, a
  -- public share lists no users, every user of an ACL is in the user table, and no user has a
  -- reserved or empty name.
  pub add_share-Consistent :
      (s : Share S) (st : ServerState S) → Consistent S st → Consistent S (add_share S s st).1
  unfolding add_share
  add_share-Consistent s st h =
      early-keeps S (Consistent S) (validate_share_name s.name) st _ h
        (elim (Bool-cases (is_public s.mode && not (is_empty s.users))) [
          | inl mixed ↦ rw mixed h
          | inr fits ↦ elim (Option-cases (first_unknown s.users st.users)) [
            | inl known ↦
                rw (fits, known)
                  (insert_bindings-Consistent (bindings_of_share S s) st
                    (bindings-ConsistentAcl s st.users fits known) h)
            | inr (name, unknown) ↦ rw (fits, unknown) h
          ]
        ])

  pub remove_share-Consistent :
      (name : Str) (st : ServerState S) → Consistent S st → Consistent S (remove_share S name st).1
  unfolding remove_share forget_share on_live remove_share_entry
  remove_share-Consistent name st h =
      early-keeps S (Consistent S) (validate_share_name name) st _ h
        (elim (Bool-cases (contains_key (lowercase name) st.shares)) [
          | inl known ↦
              rw known (h.0, All-remove (ConsistentEntry S st.users) (lowercase name) st.shares h.1)
          | inr unknown ↦ rw unknown h
        ])

  -- The change is of the share that was found under the name.
  modify_acl-Consistent :
      (name : Str) (f : ShareAcl → ShareAcl) (table : UserTable) (shares : Shares S)
      (b : ShareBindings S)
      → find S name shares ≡ some b
      → (ConsistentAcl table b.acl → ConsistentAcl table (f b.acl))
      → All (ConsistentEntry S table) shares
      → All (ConsistentEntry S table) (modify_acl S name f shares)
  unfolding modify_acl find
  modify_acl-Consistent name f table shares b found keep h =
      All-modify (ConsistentEntry S table) (lowercase name) (with_acl S f) shares
        (λ c found' k.
          let same : b ≡ c = some-injective (sym found ∙ found') in (k.0, rw same at keep k.1))
        h

  grant_on-Consistent :
      (share_name name : Str) (access : Access) (b : Option (ShareBindings S)) (st : ServerState S)
      → find S share_name st.shares ≡ b
      → contains_key name st.users ≡ true
      → Consistent S st
      → Consistent S (grant_on S share_name name access b st).1
  unfolding grant_on
  grant_on-Consistent share_name name access none st found known h = h
  grant_on-Consistent share_name name access (some b) st found known h =
      elim (Bool-cases (is_public b.acl.mode)) [
        | inl for_all ↦ rw for_all h
        | inr closed ↦ rw closed (
          h.0,
          modify_acl-Consistent share_name (with_user name access) st.users st.shares b found
              (λ k. (
                rw closed refl,
                All-insert (λ u. contains_key u.0 st.users ≡ true) name access b.acl.users known
                    k.1,
              ))
              h.1,
        )
      ]

  -- grant_share_user keeps the configuration consistent: a public share gets no user, and only
  -- a known user enters an ACL.
  pub grant_share_user-Consistent :
      (share_name name : Str) (access : Access) (st : ServerState S)
      → Consistent S st
      → Consistent S (grant_share_user S share_name name access st).1
  unfolding grant_share_user
  grant_share_user-Consistent share_name name access st h =
      early-keeps S (Consistent S) (validate_user_name name) st _ h (
        early-keeps S (Consistent S) (validate_share_name share_name) st _ h
          (elim (Bool-cases (contains_key name st.users)) [
            | inl known ↦ rw known (
                grant_on-Consistent share_name name access (find S share_name st.shares) st refl
                  known h)
            | inr unknown ↦ rw unknown h
          ]))

  revoke_on-Consistent :
      (share_name name : Str) (b : Option (ShareBindings S)) (st : ServerState S)
      → find S share_name st.shares ≡ b
      → Consistent S st
      → Consistent S (revoke_on S share_name name b st).1
  unfolding revoke_on on_live
  revoke_on-Consistent share_name name none st found h = h
  revoke_on-Consistent share_name name (some b) st found h = (
    h.0,
    modify_acl-Consistent share_name (without_user name) st.users st.shares b found
        (λ k. (
          mixed-remove b.acl.mode name b.acl.users k.0,
          All-remove (λ u. contains_key u.0 st.users ≡ true) name b.acl.users k.1,
        ))
        h.1,
  )

  pub revoke_share_user-Consistent :
      (share_name name : Str) (st : ServerState S)
      → Consistent S st
      → Consistent S (revoke_share_user S share_name name st).1
  unfolding revoke_share_user
  revoke_share_user-Consistent share_name name st h =
      early-keeps S (Consistent S) (validate_user_name name) st _ h (
        early-keeps S (Consistent S) (validate_share_name share_name) st _ h
          (revoke_on-Consistent share_name name (find S share_name st.shares) st refl h))

  set_mode_on-Consistent :
      (share_name : Str) (mode : ShareMode) (b : Option (ShareBindings S)) (st : ServerState S)
      → find S share_name st.shares ≡ b
      → Consistent S st
      → Consistent S (set_mode_on S share_name mode b st).1
  unfolding set_mode_on on_live
  set_mode_on-Consistent share_name mode none st found h = h
  set_mode_on-Consistent share_name mode (some b) st found h =
      elim (Bool-cases (is_public mode && not (is_empty b.acl.users))) [
        | inl mixed ↦ rw mixed h
        | inr fits ↦ elim (Bool-cases (mode_eq b.acl.mode mode)) [
          | inl same ↦ rw (fits, same) h
          | inr other ↦
              rw (fits, other)
                (
                  h.0,
                  modify_acl-Consistent share_name (with_mode mode) st.users st.shares b found
                      (λ k. (fits, k.1)) h.1,
                )
        ]
      ]

  pub set_share_mode-Consistent :
      (share_name : Str) (mode : ShareMode) (st : ServerState S)
      → Consistent S st
      → Consistent S (set_share_mode S share_name mode st).1
  unfolding set_share_mode
  set_share_mode-Consistent share_name mode st h =
      early-keeps S (Consistent S) (validate_share_name share_name) st _ h
        (set_mode_on-Consistent share_name mode (find S share_name st.shares) st refl h)
