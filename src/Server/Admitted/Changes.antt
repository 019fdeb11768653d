-- ===== src/Server/Admitted/Changes.antt =====
-- Which trees stay admitted when the shares change as an operation of `ConfigHandle` changes them.
use mathlib.Core.Option
use rust_smb_server.Prelude.{
  ◌≡◌, Bool, true, false, ◌||◌, Bool-cases, Option-cases, inl, inr, Option, none, some, list_eq,
  arith,
}
use rust_smb_server.Prelude.Assoc.{
  lookup, insert, lookup-remove, lookup-insert, lookup-modify, is_some, contains_key,
}
use rust_smb_server.Prelude.Text.{Str, lowercase, eq_ignore_ascii_case}
use rust_smb_server.Backend.{Storage}
use rust_smb_server.Access.{Access, ShareMode, ShareAcl, Identity, is_user, authorize, str_eq}
use rust_smb_server.Conn.State.{TreeConnect, Session, nat_eq}
use rust_smb_server.Conn.Close.{of_share, of_user_share}
use rust_smb_server.Server.State.{
  ShareBindings, Shares, find, with_acl, modify_acl, modify_all_acls, remove_share_entry,
}
use rust_smb_server.Server.Config.{without_user, with_user, with_mode}
use rust_smb_server.Server.Config.Laws.{
  other_name, authorize-without_user, authorize-with_user, lookup-modify_all_acls,
}
use rust_smb_server.Server.Admitted.{admitted_by, admitted_tree, StillAdmitted}

module _ (S : Storage) where
  or_mono : (a b c : Bool) → (b ≡ true → c ≡ true) → (a || b) ≡ true → (a || c) ≡ true
  or_mono a b c f h = ground (arith, f)

  admitted_by-with_acl :
      (f : ShareAcl → ShareAcl) (o : Option (ShareBindings S)) (identity : Identity)
      → ((acl : ShareAcl)
          → is_some (authorize acl.mode acl.users identity) ≡ true
          → is_some (authorize (f acl).mode (f acl).users identity) ≡ true)
      → admitted_by S o identity ≡ true
      → admitted_by S (Option.map (with_acl S f) o) identity ≡ true
  unfolding admitted_by
  admitted_by-with_acl f none identity keep h = h
  admitted_by-with_acl f (some b) identity keep h = keep b.acl h

  -- The change of an ACL that keeps everybody in whose tree is left.
  modify_acl-still :
      (shares : Shares S) (name : Str) (f : ShareAcl → ShareAcl)
      (closed : Session S → TreeConnect S → Bool)
      → ((s : Session S) (t : TreeConnect S) (acl : ShareAcl)
          → closed s t ≡ false
          → eq_ignore_ascii_case t.share.name name ≡ true
          → is_some (authorize acl.mode acl.users s.identity) ≡ true
          → is_some (authorize (f acl).mode (f acl).users s.identity) ≡ true)
      → StillAdmitted S shares (modify_acl S name f shares) closed
  unfolding admitted_tree find modify_acl
  modify_acl-still shares name f closed keep s t left h =
      or_mono t.share.is_ipc _ _
        (λ a. elim (Bool-cases (eq_ignore_ascii_case t.share.name name)) [
          | inl same ↦
              rw (lookup-modify (lowercase name) (lowercase t.share.name) (with_acl S f) shares)
                (elim (Bool-cases (list_eq (lowercase name) (lowercase t.share.name))) [
                  | inl here ↦
                      rw here
                        (admitted_by-with_acl f _ s.identity (λ acl. keep s t acl left same) a)
                  | inr there ↦ rw there a
                ])
          | inr other ↦
              rw
                (
                  lookup-modify (lowercase name) (lowercase t.share.name) (with_acl S f) shares,
                  other_name t.share.name name other,
                )
                a
        ])
        h

  pub without_user-still :
      (shares : Shares S) (share_name name : Str)
      → StillAdmitted S shares
          (modify_acl S share_name (without_user name) shares)
          (of_user_share S name share_name)
  without_user-still shares share_name name =
      modify_acl-still shares share_name (without_user name) (of_user_share S name share_name)
        (λ s t acl left same a.
          let another : is_user s.identity name ≡ false = ground arith in
          rw (authorize-without_user acl.mode acl.users s.identity name another) a)

  pub with_user-still :
      (shares : Shares S) (share_name name : Str) (access : Access)
      → StillAdmitted S shares
          (modify_acl S share_name (with_user name access) shares)
          (λ s t. false)
  with_user-still shares share_name name access =
      modify_acl-still shares share_name (with_user name access) (λ s t. false)
        (λ s t acl left same a. authorize-with_user acl.mode acl.users s.identity name access a)

  pub with_mode-still :
      (shares : Shares S) (share_name : Str) (mode : ShareMode)
      → StillAdmitted S shares
          (modify_acl S share_name (with_mode mode) shares)
          (of_share S share_name)
  with_mode-still shares share_name mode =
      modify_acl-still shares share_name (with_mode mode) (of_share S share_name)
        (λ s t acl left same a. cc (left, same))

  pub remove-still :
      (shares : Shares S) (share_name : Str)
      → StillAdmitted S shares (remove_share_entry S share_name shares) (of_share S share_name)
  unfolding admitted_tree find remove_share_entry
  remove-still shares share_name s t left h =
      rw
        (
          lookup-remove (lowercase share_name) (lowercase t.share.name) shares,
          other_name t.share.name share_name left,
        )
        h

  pub remove_user-still :
      (shares : Shares S) (name : Str)
      → StillAdmitted S shares
          (modify_all_acls S (without_user name) shares)
          (λ s t. is_user s.identity name)
  unfolding admitted_tree find
  remove_user-still shares name s t left h =
      rw (lookup-modify_all_acls S (without_user name) (lowercase t.share.name) shares) (
        or_mono t.share.is_ipc _ _
          (admitted_by-with_acl (without_user name) (lookup (lowercase t.share.name) shares)
            s.identity
            (λ acl a. rw (authorize-without_user acl.mode acl.users s.identity name left) a))
          h)

  -- A new name admits everybody it did before: nobody.
  admitted_by-insert :
      (key j : Str) (b : ShareBindings S) (shares : Shares S) (identity : Identity)
      → contains_key key shares ≡ false
      → admitted_by S (lookup j shares) identity ≡ true
      → admitted_by S (lookup j (insert key b shares)) identity ≡ true
  unfolding admitted_by
  admitted_by-insert key j b shares identity fresh h = elim (Bool-cases (list_eq key j)) [
    | inl same ↦
        let kj : key ≡ j = (str_eq.beq_iff key j).0 same in
        let nothing : contains_key j shares ≡ false = rw kj at fresh in
        elim (Option-cases (lookup j shares)) [
          | inl missing ↦ let no : false ≡ true = rw missing at h in cc no
          | inr (c, found) ↦ let no : true ≡ false = rw found at nothing in cc no
        ]
    | inr other ↦ rw (lookup-insert key j b shares, other) h
  ]

  pub insert-still :
      (shares : Shares S) (b : ShareBindings S)
      → contains_key (lowercase b.name) shares ≡ false
      → StillAdmitted S shares (insert (lowercase b.name) b shares) (λ s t. false)
  unfolding admitted_tree find
  insert-still shares b fresh s t left h =
      or_mono t.share.is_ipc _ _
        (admitted_by-insert (lowercase b.name) (lowercase t.share.name) b shares s.identity fresh) h
