-- ===== src/Error.antt =====
-- error.rs: the errors of a share's backend, and the status that each is reported as.
use rust_smb_server.Prelude.{ℕ, ◌≡◌, refl}
use rust_smb_server.Ntstatus

pub data SmbError : Type 0 where
  not_found path_not_found access_denied exists not_empty is_directory not_a_directory : SmbError
  name_invalid sharing not_supported io : SmbError

pub data SmbResult {ℓ} (A : Type ℓ) : Type ℓ where
  ok : A → SmbResult A
  err : SmbError → SmbResult A

infixl 5 ◌>>=◌ ◌>>◌
abbrev pub ◌>>=◌ {ℓ κ} : {A : Type ℓ} {B : Type κ} → SmbResult A → (A → SmbResult B) → SmbResult B
ok a >>= f = f a
err e >>= f = err e

abbrev pub ◌>>◌ {ℓ} : {B : Type ℓ} → SmbResult (Unit {0}) → SmbResult B → SmbResult B
m >> k = m >>= λ _. k

unfoldable pub to_nt_status : SmbError → ℕ
to_nt_status not_found = Ntstatus.object_name_not_found
to_nt_status path_not_found = Ntstatus.object_path_not_found
to_nt_status access_denied = Ntstatus.access_denied
to_nt_status exists = Ntstatus.object_name_collision
to_nt_status not_empty = Ntstatus.directory_not_empty
to_nt_status is_directory = Ntstatus.file_is_a_directory
to_nt_status not_a_directory = Ntstatus.not_a_directory
to_nt_status name_invalid = Ntstatus.object_name_invalid
to_nt_status sharing = Ntstatus.sharing_violation
to_nt_status not_supported = Ntstatus.not_supported
to_nt_status io = Ntstatus.unexpected_io_error

module _ {ℓ κ} {A : Type ℓ} {B : Type κ} where
  -- Both parts of a successful chain succeeded.
  pub bind-eq-ok :
      (m : SmbResult A) (f : A → SmbResult B) {b : B}
      → (m >>= f) ≡ ok b
      → (a : A) × (m ≡ ok a) × (f a ≡ ok b)
  bind-eq-ok (ok a) f h = (a, refl, h)
  bind-eq-ok (err e) f h = cc

module _ {ℓ} {A : Type ℓ} where
  pub ok-injective : {a b : A} → ok a ≡ ok b → a ≡ b
  ok-injective h = cc
