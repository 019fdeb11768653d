-- ===== src/Server/Builder/Laws.antt =====
-- What `build` gives: it never indexes a map at a missing key, and the state that it makes is
-- consistent.
use rust_smb_server.Prelude.{
  ℕ, ◌&&◌, not, is_empty, ◌≡◌, ◌≢◌, refl, sym, ap, ◌∙◌, true, false, Bool-cases, inl, inr, Option,
  none, some, List, [], ◌∷◌, ◌++◌, map, All, All-mono, All-append, list_eq_refl,
}
use rust_smb_server.Prelude.Assoc.{
  insert, contains_key, has, lookup-insert, contains_key-insert, All-insert,
}
use rust_smb_server.Prelude.Text.{Str, lowercase}
use rust_smb_server.Backend.{Storage}
use rust_smb_server.Access.{Access, is_public, Users, str_eq}
use rust_smb_server.Server.State
use rust_smb_server.Server.State.{
  UserCreds, Share, ShareBindings, new_bindings, add_bindings, new_shares, ServerState, new_state,
}
use rust_smb_server.Server.Config.{first_unknown, bindings_of_share, validate_user_name}
use rust_smb_server.Server.Config.Consistent.{Consistent, ConsistentEntry, ConsistentAcl, UserTable}
use rust_smb_server.Server.Admitted.{Admitted}
use rust_smb_server.Server.Builder.{
  ok, panicked, fail_if, duplicate_share, public_mixed_with_users, Environment, check_user_names,
  known, user_table, Builder, new_builder, builder_user, builder_share, check_shares, required_addr,
  build,
}
use rust_smb_server.Server.Builder.Table.{
  has-append, has_last, key-has, first_unknown-known, bind_then, ok-injective, fail_if-ok,
  bind-returns, fail_if-returns, check_user_names-returns, known-returns, required_addr-returns,
  check_user_names-valid, user_table-Tabled, user_table-valid,
}

module _ (S : Storage) where
  -- The order lists exactly the users that are registered.
  pub record Ordered (b : Builder S) : Type 0 where
    pub named : All (λ name. contains_key name b.users ≡ true) b.user_order
    pub covered : All (λ p. has p.0 b.user_order ≡ true) b.users

  -- What the methods of the builder make. The setters of one field each are left out of the steps
  -- but for what they set: `refined` is any change of the other fields.
  pub data Built : Builder S → Type 0 where
    fresh : Built (new_builder S)
    with_user :
        {b : Builder S} (name password : Str) → Built b → Built (builder_user S name password b)
    with_share : {b : Builder S} (s : Share S) → Built b → Built (builder_share S s b)
    listening :
        {b : Builder S} (addr : Str) → Built b → Built (record b { listen_addr = some addr })
    called : {b : Builder S} (name : Str) → Built b → Built (record b { netbios_name = some name })
    reading : {b : Builder S} (bytes : ℕ) → Built b → Built (record b { max_read_size = bytes })
    writing : {b : Builder S} (bytes : ℕ) → Built b → Built (record b { max_write_size = bytes })
    guided :
        {b : Builder S} (guid : List ℕ) → Built b → Built (record b { server_guid = some guid })

  builder_user-Ordered :
      (name password : Str) (b : Builder S) → Ordered b → Ordered (builder_user S name password b)
  unfolding builder_user
  builder_user-Ordered name password b h = elim (Bool-cases (contains_key name b.users)) [
    | inl old ↦ record {
      named = rw old (
          All-mono (λ n. contains_key n b.users ≡ true) _
            (λ n. contains_key-insert name n password b.users) b.user_order h.named);
      covered = rw old (
          All-insert (λ p. has p.0 b.user_order ≡ true) name password b.users
            (key-has name b.user_order b.users h.covered old) h.covered);
    }
    | inr new ↦ record {
      named = rw new (
          All-append (λ n. contains_key n (insert name password b.users) ≡ true) b.user_order
            (name ∷ [])
            (All-mono (λ n. contains_key n b.users ≡ true) _
              (λ n. contains_key-insert name n password b.users) b.user_order h.named)
            (rw (lookup-insert name name password b.users, list_eq_refl name) refl, tt));
      covered = rw new (
          All-insert (λ p. has p.0 (b.user_order ++ name ∷ []) ≡ true) name password b.users
            (has_last name b.user_order)
            (All-mono (λ p. has p.0 b.user_order ≡ true) _ (λ p. has-append p.0 name b.user_order)
              b.users h.covered));
    }
  ]

  Built-Ordered : {b : Builder S} → Built b → Ordered b
  unfolding new_builder builder_share
  Built-Ordered fresh = record { named = tt; covered = tt }
  Built-Ordered (with_user {b} name password h) =
      builder_user-Ordered name password b (Built-Ordered h)
  Built-Ordered (with_share s h) =
      let o = Built-Ordered h in record { named = o.named; covered = o.covered }
  Built-Ordered (listening addr h) =
      let o = Built-Ordered h in record { named = o.named; covered = o.covered }
  Built-Ordered (called name h) =
      let o = Built-Ordered h in record { named = o.named; covered = o.covered }
  Built-Ordered (reading bytes h) =
      let o = Built-Ordered h in record { named = o.named; covered = o.covered }
  Built-Ordered (writing bytes h) =
      let o = Built-Ordered h in record { named = o.named; covered = o.covered }
  Built-Ordered (guided guid h) =
      let o = Built-Ordered h in record { named = o.named; covered = o.covered }

  -- What a share has passed.
  abbrev FitsTable : List (Str × Str) → Share S → Type 0
  FitsTable users s =
      ((is_public s.mode && not (is_empty s.users)) ≡ false)
      × All (λ u. contains_key u.0 users ≡ true) s.users

  known-none : (share : Str) (o : Option Str) {u : Unit {0}} → known share o ≡ ok u → o ≡ none
  known-none share none h = refl
  known-none share (some name) h = cc

  check_shares-FitsTable :
      (users : List (Str × Str)) (seen : List Str) (shares : List (Share S)) {u : Unit {0}}
      → check_shares S users seen shares ≡ ok u
      → All (FitsTable users) shares
  unfolding check_shares
  check_shares-FitsTable users seen [] h = tt
  check_shares-FitsTable users seen (s ∷ shares) h =
      bind_then (fail_if (has (lowercase s.name) seen) (duplicate_share s.name)) _ h (λ _ single h.
        bind_then
          (fail_if (is_public s.mode && not (is_empty s.users)) (public_mixed_with_users s.name)) _
          h
          (λ _ unmixed h.
            bind_then (known s.name (first_unknown s.users users)) _ h (λ _ all_known h. (
              (
                fail_if-ok (is_public s.mode && not (is_empty s.users))
                    (public_mixed_with_users s.name) unmixed,
                first_unknown-known s.users users
                    (known-none s.name (first_unknown s.users users) all_known),
              ),
              check_shares-FitsTable users (lowercase s.name ∷ seen) shares h,
            ))))

  add_bindings-Consistent :
      (table : UserTable) (shares : List (Share S)) (by_name : State.Shares S)
      → All (λ s. ConsistentAcl table (bindings_of_share S s).acl) shares
      → All (ConsistentEntry S table) by_name
      → All (ConsistentEntry S table) (add_bindings S (map (bindings_of_share S) shares) by_name)
  unfolding add_bindings new_bindings
  add_bindings-Consistent table [] by_name h k = k
  add_bindings-Consistent table (s ∷ shares) by_name h k =
      add_bindings-Consistent table shares
        (insert (lowercase s.name) (bindings_of_share S s) by_name) h.1
        (All-insert (ConsistentEntry S table) (lowercase s.name) (bindings_of_share S s) by_name
          (refl, h.0) k)

  AllKnown-table :
      (env : Environment) (b : Builder S) (t : UserTable) (users : Users)
      → Ordered b
      → user_table env.from_password b.users b.user_order [] ≡ ok t
      → All (λ u. contains_key u.0 b.users ≡ true) users
      → All (λ u. contains_key u.0 t ≡ true) users
  AllKnown-table env b t users o made h =
      let (t', tabled) = user_table-Tabled env.from_password b.users b.user_order [] o.named in
      let same : t' ≡ t = ok-injective (sym tabled.made ∙ made) in
      All-mono (λ (u : Str × Access). contains_key u.0 b.users ≡ true) _
        (λ u k. rw same at (tabled.listed u.0 (key-has u.0 b.user_order b.users o.covered k))) users
        h

  started-Consistent :
      (env : Environment) (b : Builder S) (t : UserTable) {u v : Unit {0}}
      → Ordered b
      → check_user_names b.user_order ≡ ok u
      → check_shares S b.users [] b.shares ≡ ok v
      → user_table env.from_password b.users b.user_order [] ≡ ok t
      → All (λ p. validate_user_name p.0 ≡ State.ConfigResult.ok) t
        × All (ConsistentEntry S t) (add_bindings S (map (bindings_of_share S) b.shares) [])
  unfolding new_bindings
  started-Consistent env b t o names_ok shares_ok made = (
    user_table-valid env.from_password b.users (λ n. validate_user_name n ≡ State.ConfigResult.ok)
        b.user_order [] t made (check_user_names-valid b.user_order names_ok) tt,
    add_bindings-Consistent t b.shares []
        (All-mono (FitsTable b.users) _ (λ s k. (k.0, AllKnown-table env b t s.users o made k.1))
          b.shares (check_shares-FitsTable b.users [] b.shares shares_ok))
        tt,
  )

  -- Where build succeeds on a builder made by its methods, the state that the server starts
  -- with is consistent, and every tree of a live connection is admitted.
  pub build-Sound :
      (env : Environment) (b : Builder S) (w : S.World) (addr : Str) (st : ServerState S)
      → Built b
      → build S env b w ≡ ok (addr, st)
      → Consistent S st × Admitted S st
  unfolding build new_state new_shares new_bindings
  build-Sound env b w addr st built h =
      let o : Ordered b = Built-Ordered built in
      bind_then (check_user_names b.user_order) _ h (λ _ names_ok h.
        bind_then (check_shares S b.users [] b.shares) _ h (λ _ shares_ok h.
          bind_then (required_addr b.listen_addr) _ h (λ a _ h.
            bind_then (user_table env.from_password b.users b.user_order []) _ h (λ t made h.
              let same : new_state S _ t (map (bindings_of_share S) b.shares) w ≡ st =
                ap (λ x. x.1) (ok-injective h) in
              rw (← same) (started-Consistent env b t o names_ok shares_ok made, tt)))))

  check_shares-returns :
      (users : List (Str × Str)) (seen : List Str) (shares : List (Share S))
      → check_shares S users seen shares ≢ panicked
  unfolding check_shares
  check_shares-returns users seen [] = λ p. cc p
  check_shares-returns users seen (s ∷ shares) =
      bind-returns (fail_if (has (lowercase s.name) seen) (duplicate_share s.name)) _
        (fail_if-returns _ _)
        (λ _ _.
          bind-returns
            (fail_if (is_public s.mode && not (is_empty s.users)) (public_mixed_with_users s.name))
            _ (fail_if-returns _ _)
            (λ _ _.
              bind-returns (known s.name (first_unknown s.users users)) _
                (known-returns s.name (first_unknown s.users users))
                (λ _ _. check_shares-returns users (lowercase s.name ∷ seen) shares)))

  -- build on a builder made by its methods never indexes the table of passwords at a name that
  -- it does not have.
  pub build-returns :
      (env : Environment) (b : Builder S) (w : S.World) → Built b → build S env b w ≢ panicked
  unfolding build
  build-returns env b w built =
      let (t, tabled) =
        user_table-Tabled env.from_password b.users b.user_order [] (Built-Ordered built).named in
      bind-returns (check_user_names b.user_order) _ (check_user_names-returns b.user_order) (λ _ _.
        bind-returns (check_shares S b.users [] b.shares) _
          (check_shares-returns b.users [] b.shares)
          (λ _ _.
            bind-returns (required_addr b.listen_addr) _ (required_addr-returns b.listen_addr)
              (λ _ _.
                bind-returns (user_table env.from_password b.users b.user_order []) _
                  (λ p. cc (p, tabled.made)) (λ _ _ p. cc p))))
