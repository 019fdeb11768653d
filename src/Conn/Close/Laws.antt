-- ===== src/Conn/Close/Laws.antt =====
-- What closing leaves in the tables.
use rust_smb_server.Prelude.{
  ℕ, ◌≡◌, refl, sym, ap, ◌∙◌, Bool, false, Option, none, some, Option-cases, inl, inr, List, [],
  ◌∷◌, All,
}
use rust_smb_server.Prelude.Assoc.{
  lookup, remove, remove_keys, lookup-none-remove, keys_where, keys_where-removed, All-remove_keys,
}
use rust_smb_server.Prelude.Text.{Str}
use rust_smb_server.Backend.{Storage}
use rust_smb_server.Access.{is_user}
use rust_smb_server.Conn.State.{TreeConnect, Session, Connection, nat_eq}
use rust_smb_server.Conn.Close.{
  close_session, close_sessions, sessions_of, close_sessions_for_user, without_tree,
  remove_tree_from_session, matching_trees, remove_trees, close_matching_in,
}

module _ (S : Storage) where
  pub sessions-close_session :
      (c : Connection S) (id : ℕ) (w : S.World)
      → (close_session S c id w).1.sessions ≡ remove id c.sessions
  unfolding close_session
  sessions-close_session c id w = elim (Option-cases (lookup id c.sessions)) [
    | inl missing ↦ rw (missing, close_session) (sym (lookup-none-remove id c.sessions missing))
    | inr (s, found) ↦ rw (found, close_session) refl
  ]

  sessions-close_sessions :
      (ids : List ℕ) (c : Connection S) (w : S.World)
      → (close_sessions S ids c w).1.sessions ≡ remove_keys ids c.sessions
  unfolding close_sessions remove_keys
  sessions-close_sessions [] c w = refl
  sessions-close_sessions (id ∷ ids) c w =
      sessions-close_sessions ids (close_session S c id w).1 (close_session S c id w).2
      ∙ ap (remove_keys ids) (sessions-close_session c id w)

  trees-without_tree :
      (s : Session S) (id : ℕ) (t : Option (TreeConnect S)) (w : S.World)
      → lookup id s.trees ≡ t
      → (without_tree S s id t w).1 ≡ record s { trees = remove id s.trees }
  unfolding without_tree
  trees-without_tree s id (some t) w found = refl
  trees-without_tree s id none w missing =
      ap (λ (t : List (ℕ × TreeConnect S)). record s { trees = t })
        (sym (lookup-none-remove id s.trees missing))

  pub trees-remove_tree :
      (s : Session S) (id : ℕ) (w : S.World)
      → (remove_tree_from_session S s id w).1 ≡ record s { trees = remove id s.trees }
  unfolding remove_tree_from_session
  trees-remove_tree s id w = trees-without_tree s id (lookup id s.trees) w refl

  trees-remove_trees :
      (ids : List ℕ) (s : Session S) (w : S.World)
      → (remove_trees S ids s w).1 ≡ record s { trees = remove_keys ids s.trees }
  unfolding remove_trees remove_keys
  trees-remove_trees [] s w = refl
  trees-remove_trees (id ∷ ids) s w =
      trees-remove_trees ids (remove_tree_from_session S s id w).1
        (remove_tree_from_session S s id w).2
      ∙ ap (λ (s' : Session S). record s' { trees = remove_keys ids s'.trees })
          (trees-remove_tree s id w)

  -- After close_sessions_for_user no session of the connection belongs to the user.
  pub close_sessions_for_user-gone :
      (c : Connection S) (name : Str) (w : S.World)
      → All (λ p. is_user p.1.identity name ≡ false) (close_sessions_for_user S c name w).1.sessions
  unfolding close_sessions_for_user sessions_of
  close_sessions_for_user-gone c name w =
      rw (sessions-close_sessions (sessions_of S name c.sessions) c w)
        (keys_where-removed (λ s. is_user s.identity name) c.sessions)

  pub close_sessions_for_user-All {ℓ} :
      (P : ℕ × Session S → Type ℓ) (c : Connection S) (name : Str) (w : S.World)
      → All P c.sessions
      → All P (close_sessions_for_user S c name w).1.sessions
  unfolding close_sessions_for_user
  close_sessions_for_user-All P c name w h =
      rw (sessions-close_sessions (sessions_of S name c.sessions) c w)
        (All-remove_keys P (sessions_of S name c.sessions) c.sessions h)

  -- The session that `close_matching_in` makes of one: the trees that match are gone.
  abbrev pub without_matching : (Session S → TreeConnect S → Bool) → Session S → Session S
  without_matching test s = record s { trees = remove_keys (keys_where (test s) s.trees) s.trees }

  pub close_matching_in-All {ℓ κ} :
      (test : Session S → TreeConnect S → Bool) (P : ℕ × Session S → Type ℓ)
      (Q : ℕ × Session S → Type κ) (sessions : List (ℕ × Session S)) (w : S.World)
      → ((id : ℕ) (s : Session S) → P (id, s) → Q (id, without_matching test s))
      → All P sessions
      → All Q (close_matching_in S test sessions w).1
  unfolding close_matching_in matching_trees
  close_matching_in-All test P Q [] w step h = tt
  close_matching_in-All test P Q ((id, s) ∷ sessions) w step h =
      let r : ℕ × Session S × S.World = remove_trees S (keys_where (test s) s.trees) s w in
      (
        rw (trees-remove_trees (keys_where (test s) s.trees) s w) (step id s h.0),
        close_matching_in-All test P Q sessions r.2 step h.1,
      )
