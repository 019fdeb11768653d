-- ===== src/Server/Config/Laws.antt =====
-- What the operations of `ConfigHandle` have in common: a lookup in a changed table, and the pass
-- over the live connections.
use rust_smb_server.Prelude.{
  ℕ, ◌≡◌, refl, sym, true, false, Bool-cases, inl, inr, List, [], ◌∷◌, All, list_eq, list_eq_iff,
}
use rust_smb_server.Prelude.Assoc.{lookup, insert, remove, lookup-remove, lookup-insert, is_some}
use rust_smb_server.Prelude.Text.{Str, lowercase, eq_ignore_ascii_case}
use rust_smb_server.Backend.{Storage}
use rust_smb_server.Access.{
  Access, ShareMode, public, public_read_only, authenticated_only, Users, ShareAcl, Identity,
  anonymous, user, is_user, authorize, str_eq,
}
use rust_smb_server.Conn.State.{Connection}
use rust_smb_server.Server.State.{
  ConfigResult, ok, err, Shares, with_acl, modify_all_acls, ServerState,
}
use rust_smb_server.Server.Config.{early, each_live}
use mathlib.Core.Option

pub list_eq-sym-false : (a b : Str) → list_eq a b ≡ false → list_eq b a ≡ false
list_eq-sym-false a b h = elim (Bool-cases (list_eq b a)) [
  | inl same ↦
      let ab : list_eq a b ≡ true = (list_eq_iff a b).1 (sym ((list_eq_iff b a).0 same)) in
      cc (ab, h)
  | inr other ↦ other
]

pub other_name :
    (a b : Str) → eq_ignore_ascii_case a b ≡ false → list_eq (lowercase b) (lowercase a) ≡ false
unfolding eq_ignore_ascii_case
other_name a b h = list_eq-sym-false (lowercase a) (lowercase b) h

pub authorize-without_user :
    (mode : ShareMode) (users : Users) (identity : Identity) (name : Str)
    → is_user identity name ≡ false
    → authorize mode (remove name users) identity ≡ authorize mode users identity
unfolding authorize
authorize-without_user public users identity name h = refl
authorize-without_user public_read_only users identity name h = refl
authorize-without_user authenticated_only users anonymous name h = refl
authorize-without_user authenticated_only users (user u d) name h =
    rw (lookup-remove name u users, list_eq-sym-false u name h) refl

pub authorize-with_user :
    (mode : ShareMode) (users : Users) (identity : Identity) (name : Str) (access : Access)
    → is_some (authorize mode users identity) ≡ true
    → is_some (authorize mode (insert name access users) identity) ≡ true
unfolding authorize
authorize-with_user public users identity name access h = refl
authorize-with_user public_read_only users identity name access h = refl
authorize-with_user authenticated_only users anonymous name access h = h
authorize-with_user authenticated_only users (user u d) name access h =
    elim (Bool-cases (list_eq name u)) [
      | inl same ↦ rw (lookup-insert name u access users, same) refl
      | inr other ↦ rw (lookup-insert name u access users, other) h
    ]

module _ (S : Storage) where
  pub lookup-modify_all_acls :
      (f : ShareAcl → ShareAcl) (key : Str) (by_name : Shares S)
      → lookup key (modify_all_acls S f by_name) ≡ Option.map (with_acl S f) (lookup key by_name)
  unfolding lookup modify_all_acls
  lookup-modify_all_acls f key [] = refl
  lookup-modify_all_acls f key ((k, b) ∷ by_name) = elim (Bool-cases (list_eq k key)) [
    | inl same ↦ rw same refl
    | inr other ↦ rw other (lookup-modify_all_acls f key by_name)
  ]

  pub early-keeps {ℓ} :
      (P : ServerState S → Type ℓ) (r : ConfigResult) (st : ServerState S)
      (rest : ConfigResult × ServerState S)
      → P st
      → P rest.1
      → P (early S r st rest).1
  early-keeps P ok st rest h k = k
  early-keeps P (err e) st rest h k = h

  pub each_live-All {ℓ κ} :
      (P : ℕ × Connection S → Type ℓ) (Q : ℕ × Connection S → Type κ)
      (f : Connection S → S.World → ℕ × Connection S × S.World)
      → ((id : ℕ) (c : Connection S) (w : S.World) → P (id, c) → Q (id, (f c w).1))
      → (connections : List (ℕ × Connection S)) (w : S.World) → All P connections
      → All Q (each_live S f connections w).0
  unfolding each_live
  each_live-All P Q f step [] w h = tt
  each_live-All P Q f step ((id, c) ∷ connections) w h =
      (step id c w h.0, each_live-All P Q f step connections (f c w).2 h.1)
