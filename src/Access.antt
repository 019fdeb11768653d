-- ===== src/Access.antt =====
-- Who may use a share: `Access` of builder.rs, `ShareMode` and `ShareAcl` of server.rs, `Identity` of
-- proto/auth/ntlm.rs, and `authorize` of handlers/tree_connect.rs.
use rust_smb_server.Prelude.{
  Bool, true, false, ◌≡◌, refl, Option, none, some, List, list_eq, list_eq_iff,
}
use rust_smb_server.Prelude.Assoc.{Eq, lookup}
use rust_smb_server.Prelude.Text.{Str}

pub data Access : Type 0 where
  read read_write : Access

unfoldable pub allows_write : Access → Bool
allows_write read = false
allows_write read_write = true

unfoldable pub clamp_to : Access → Access → Access
clamp_to read_write read_write = read_write
clamp_to _ _ = read

pub data ShareMode : Type 0 where
  public public_read_only authenticated_only : ShareMode

-- `matches!(mode, Public | PublicReadOnly)`
abbrev pub is_public : ShareMode → Bool
is_public public = true
is_public public_read_only = true
is_public authenticated_only = false

-- `mode == mode'`
abbrev pub mode_eq : ShareMode → ShareMode → Bool
mode_eq public public = true
mode_eq public_read_only public_read_only = true
mode_eq authenticated_only authenticated_only = true
mode_eq _ _ = false

pub mode_eq_sound : (a b : ShareMode) → mode_eq a b ≡ true → a ≡ b
mode_eq_sound public public h = refl
mode_eq_sound public public_read_only h = cc
mode_eq_sound public authenticated_only h = cc
mode_eq_sound public_read_only public h = cc
mode_eq_sound public_read_only public_read_only h = refl
mode_eq_sound public_read_only authenticated_only h = cc
mode_eq_sound authenticated_only public h = cc
mode_eq_sound authenticated_only public_read_only h = cc
mode_eq_sound authenticated_only authenticated_only h = refl

-- Keys of the tables that are names.
instance abbrev pub str_eq : Eq Str
str_eq = record { beq = list_eq; beq_iff = list_eq_iff }

abbrev pub Users : Type 0
Users = List (Str × Access)

pub record ShareAcl : Type 0 where
  pub mode : ShareMode
  pub users : Users

pub data Identity : Type 0 where
  anonymous : Identity
  user : Str → Str → Identity

-- `matches!(identity, Identity::User { user, .. } if user == name)`
abbrev pub is_user : Identity → Str → Bool
is_user anonymous name = false
is_user (user u domain) name = list_eq u name

unfoldable pub is_anonymous : Identity → Bool
is_anonymous anonymous = true
is_anonymous (user u domain) = false

unfoldable pub authorize : ShareMode → Users → Identity → Option Access
authorize public users identity = some read_write
authorize public_read_only users identity = some read
authorize authenticated_only users anonymous = none
authorize authenticated_only users (user u domain) = lookup u users
