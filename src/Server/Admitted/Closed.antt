-- ===== src/Server/Admitted/Closed.antt =====
-- What `remove_user` and `revoke_share_user` leave behind: no session or tree that rested on the user.
use rust_smb_server.Prelude.{
  ℕ, ◌≡◌, refl, false, ◌&&◌, Bool-cases, Option-cases, inl, inr, Option, none, some, List, [], ◌∷◌,
  All, list_eq_iff,
}
use rust_smb_server.Prelude.Assoc.{
  lookup, remove, lookup-remove, lookup-modify, contains_key, keys_where-removed,
}
use rust_smb_server.Prelude.Text.{Str, lowercase, eq_ignore_ascii_case}
use rust_smb_server.Backend.{Storage}
use rust_smb_server.Access.{is_user, str_eq}
use rust_smb_server.Conn.State.{Connection, nat_eq}
use rust_smb_server.Conn.Close.{
  close_sessions_for_user, close_matching_trees, close_trees_for_user_share, of_user_share,
}
use rust_smb_server.Conn.Close.Laws.{close_sessions_for_user-gone, close_matching_in-All}
use rust_smb_server.Server.State.{
  ConfigResult, ok, err, ShareBindings, Shares, find, modify_acl, modify_all_acls, with_acl,
  ServerState,
}
use rust_smb_server.Server.Config.{
  without_user, validate_user_name, validate_share_name, early, on_live, forget_user, remove_user,
  revoke_on, revoke_share_user,
}
use rust_smb_server.Server.Config.Laws.{each_live-All}
use rust_smb_server.Server.Admitted.{Admitted}
use rust_smb_server.Server.Admitted.Config.{remove_user-Admitted, revoke_share_user-Admitted}

everywhere {ℓ κ} : {A : Type ℓ} {P : A → Type κ} → ((a : A) → P a) → (xs : List A) → All P xs
everywhere p [] = tt
everywhere p (x ∷ xs) = (p x, everywhere p xs)

-- A user who is in no list of users.
lookup-removed {ℓ} :
    {V : Type ℓ} (name : Str) (users : List (Str × V)) → lookup name (remove name users) ≡ none
lookup-removed name users = rw (lookup-remove name name users, (list_eq_iff name name).1 refl) refl

module _ (S : Storage) where
  -- A pass over the live connections leaves what the closing leaves in each.
  on_live-leaves :
      (Q : Connection S → Type 0) (f : Connection S → S.World → ℕ × Connection S × S.World)
      → ((c : Connection S) (w : S.World) → Q (f c w).1)
      → (st : ServerState S) → All (λ p. Q p.1) (on_live S f st).connections
  unfolding on_live
  on_live-leaves Q f closed st =
      each_live-All S (λ _. Unit {0}) (λ p. Q p.1) f (λ id c w h. closed c w) st.connections
        st.world (everywhere (λ _. tt) st.connections)

  -- No session of the connection is the user's.
  abbrev pub NoSession : Str → Connection S → Type 0
  NoSession name c = All (λ q. is_user q.1.identity name ≡ false) c.sessions

  -- No session of the user has a tree of the share.
  abbrev pub NoTree : Str → Str → Connection S → Type 0
  NoTree name share_name c =
      All
        (λ q.
          All
            (λ t.
              (is_user q.1.identity name && eq_ignore_ascii_case t.1.share.name share_name) ≡ false)
            q.1.trees)
        c.sessions

  -- The share is there, and its ACL does not list the user.
  abbrev pub Unlisted : Str → Option (ShareBindings S) → Type 0
  Unlisted name none = ⊥
  Unlisted name (some b) = lookup name b.acl.users ≡ none

  -- What remove_user does, by how it ended.
  abbrev pub Removed : Str → ServerState S → ConfigResult × ServerState S → Type 0
  Removed name st (ok, st') =
      Admitted S st'
      × ((lookup name st'.users ≡ none)
          × (All (λ p. lookup name p.1.acl.users ≡ none) st'.shares
              × All (λ p. NoSession name p.1) st'.connections))
  Removed name st (err e, st') = st' ≡ st

  -- What revoke_share_user does, by how it ended.
  abbrev pub Revoked : Str → Str → ServerState S → ConfigResult × ServerState S → Type 0
  Revoked share_name name st (ok, st') =
      Admitted S st'
      × (Unlisted name (find S share_name st'.shares)
          × All (λ p. NoTree name share_name p.1) st'.connections)
  Revoked share_name name st (err e, st') = st' ≡ st

  unlisted_everywhere :
      (name : Str) (shares : Shares S)
      → All (λ p. lookup name p.1.acl.users ≡ none) (modify_all_acls S (without_user name) shares)
  unfolding modify_all_acls
  unlisted_everywhere name [] = tt
  unlisted_everywhere name ((key, b) ∷ shares) =
      (lookup-removed name b.acl.users, unlisted_everywhere name shares)

  close_trees_for_user_share-NoTree :
      (name share_name : Str) (c : Connection S) (w : S.World)
      → NoTree name share_name (close_trees_for_user_share S c name share_name w).1
  unfolding close_trees_for_user_share close_matching_trees
  close_trees_for_user_share-NoTree name share_name c w =
      close_matching_in-All S (of_user_share S name share_name) (λ _. Unit {0})
        (λ q.
          All
            (λ t.
              (is_user q.1.identity name && eq_ignore_ascii_case t.1.share.name share_name) ≡ false)
            q.1.trees)
        c.sessions w (λ id s h. keys_where-removed (of_user_share S name share_name s) s.trees)
        (everywhere (λ _. tt) c.sessions)

  find-revoked :
      (share_name name : Str) (shares : Shares S) (b : ShareBindings S)
      → find S share_name shares ≡ some b
      → Unlisted name (find S share_name (modify_acl S share_name (without_user name) shares))
  unfolding find modify_acl
  find-revoked share_name name shares b found =
      let key : Str = lowercase share_name in
      rw
        (
          lookup-modify key key (with_acl S (without_user name)) shares,
          (list_eq_iff key key).1 refl,
          found,
        )
        (lookup-removed name b.acl.users)

  revoke_on-Revoked :
      (share_name name : Str) (st : ServerState S)
      → Admitted S (revoke_on S share_name name (find S share_name st.shares) st).1
      → Revoked share_name name st (revoke_on S share_name name (find S share_name st.shares) st)
  unfolding revoke_on on_live
  revoke_on-Revoked share_name name st h = elim (Option-cases (find S share_name st.shares)) [
    | inl missing ↦ rw missing refl
    | inr (b, found) ↦ rw found (
      (rw found at h),
      (
        find-revoked share_name name st.shares b found,
        on_live-leaves (NoTree name share_name)
            (λ c w. close_trees_for_user_share S c name share_name w)
            (close_trees_for_user_share-NoTree name share_name)
            (record st { shares = modify_acl S share_name (without_user name) st.shares }),
      ),
    )
  ]

  early-Revoked :
      (share_name name : Str) (r : ConfigResult) (st : ServerState S)
      (rest : ConfigResult × ServerState S)
      → (Admitted S (early S r st rest).1)
      → (Admitted S rest.1 → Revoked share_name name st rest)
      → Revoked share_name name st (early S r st rest)
  early-Revoked share_name name ok st rest h k = k h
  early-Revoked share_name name (err e) st rest h k = refl

  -- Where revoke_share_user succeeds on a state that keeps every tree admitted, every tree is
  -- still admitted, the share is there without the user in its ACL, and on no live connection
  -- a session of the user has a tree of the share; where it fails, the state is as it was.
  pub revoke_share_user-Revoked :
      (share_name name : Str) (st : ServerState S)
      → Admitted S st
      → Revoked share_name name st (revoke_share_user S share_name name st)
  unfolding revoke_share_user
  revoke_share_user-Revoked share_name name st h =
      early-Revoked share_name name (validate_user_name name) st _
        (revoke_share_user-Admitted S share_name name st h)
        (λ h'.
          early-Revoked share_name name (validate_share_name share_name) st _ h'
            (revoke_on-Revoked share_name name st))

  forget_user-Removed :
      (name : Str) (st : ServerState S)
      → Admitted S (forget_user S name st)
      → Removed name st (ok, forget_user S name st)
  unfolding forget_user on_live
  forget_user-Removed name st h = (
    h,
    (
      lookup-removed name st.users,
      (
        unlisted_everywhere name st.shares,
        on_live-leaves (NoSession name) (λ c w. close_sessions_for_user S c name w)
            (λ c w. close_sessions_for_user-gone S c name w)
            (record st {
              users = remove name st.users;
              shares = modify_all_acls S (without_user name) st.shares;
            }),
      ),
    ),
  )

  early-Removed :
      (name : Str) (r : ConfigResult) (st : ServerState S) (rest : ConfigResult × ServerState S)
      → (Admitted S (early S r st rest).1)
      → (Admitted S rest.1 → Removed name st rest)
      → Removed name st (early S r st rest)
  early-Removed name ok st rest h k = k h
  early-Removed name (err e) st rest h k = refl

  -- Where remove_user succeeds on a state that keeps every tree admitted, every tree is still
  -- admitted, the user is neither in the user table nor in the ACL of any share, and no live
  -- connection has a session of the user; where it fails, the state is as it was.
  pub remove_user-Removed :
      (name : Str) (st : ServerState S) → Admitted S st → Removed name st (remove_user S name st)
  unfolding remove_user
  remove_user-Removed name st h =
      early-Removed name (validate_user_name name) st _ (remove_user-Admitted S name st h) (λ h'.
        elim (Bool-cases (contains_key name st.users)) [
          | inl known ↦ rw known (forget_user-Removed name st (rw known at h'))
          | inr unknown ↦ rw unknown refl
        ])
