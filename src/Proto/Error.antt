-- ===== src/Proto/Error.antt =====
-- proto/error.rs: the errors of the wire layer. The text of a message is not kept; the I/O and
-- binrw errors carry what those libraries report, which no caller looks at.
use rust_smb_server.Prelude.{ℕ, ◌≡◌, refl, Bool, true, false}

pub data ProtoError : Type 0 where
  malformed : ProtoError
  unsupported_dialect : ℕ → ProtoError
  auth : ProtoError
  crypto : ProtoError
  io : ProtoError
  binrw : ProtoError

pub data ProtoResult {ℓ} (A : Type ℓ) : Type ℓ where
  ok : A → ProtoResult A
  err : ProtoError → ProtoResult A

infixl 5 ◌>>=◌ ◌>>◌
abbrev pub ◌>>=◌ {ℓ κ} :
    {A : Type ℓ} {B : Type κ} → ProtoResult A → (A → ProtoResult B) → ProtoResult B
ok a >>= f = f a
err e >>= f = err e

abbrev pub ◌>>◌ {ℓ} : {B : Type ℓ} → ProtoResult (Unit {0}) → ProtoResult B → ProtoResult B
m >> k = m >>= λ _. k

-- `if !b { return Err(e) }`
abbrev pub guard : Bool → ProtoError → ProtoResult (Unit {0})
guard true e = ok tt
guard false e = err e

module _ {ℓ κ} {A : Type ℓ} {B : Type κ} where
  -- Both parts of a successful chain succeeded.
  pub bind-eq-ok :
      (m : ProtoResult A) (f : A → ProtoResult B) {b : B}
      → (m >>= f) ≡ ok b
      → (a : A) × (m ≡ ok a) × (f a ≡ ok b)
  bind-eq-ok (ok a) f h = (a, refl, h)
  bind-eq-ok (err e) f h = cc

module _ {ℓ} {A : Type ℓ} where
  pub guard-eq-ok :
      (t : Bool) (e : ProtoError) (m : ProtoResult A) {a : A}
      → (guard t e >> m) ≡ ok a
      → (t ≡ true) × (m ≡ ok a)
  guard-eq-ok true e m h = (refl, h)
  guard-eq-ok false e m h = cc

  pub ok-injective : {a b : A} → ok a ≡ ok b → a ≡ b
  ok-injective h = cc
