-- ===== src/Handlers.antt =====
-- handlers/: the requests on sessions, trees and open files, from the decoded request to the status
-- or the reply. The result of a handler is a status (`HandlerResponse::err`) or its reply.
pub mod Shared
pub mod TreeConnect
pub mod SessionSetup
pub mod Files
pub mod Negotiate
pub mod Replies
pub mod Small
use rust_smb_server.Prelude.{Bool, true, false, ℕ, Option, none, some, ◌≡◌, refl}

pub data HandlerResult {ℓ} (A : Type ℓ) : Type ℓ where
  ok : A → HandlerResult A
  err : ℕ → HandlerResult A

infixl 5 ◌>>=◌
abbrev pub ◌>>=◌ {ℓ κ} :
    {A : Type ℓ} {B : Type κ} → HandlerResult A → (A → HandlerResult B) → HandlerResult B
ok a >>= f = f a
err status >>= f = err status

-- `.ok_or(status)?`
abbrev pub ok_or {ℓ} : {A : Type ℓ} → ℕ → Option A → HandlerResult A
ok_or status none = err status
ok_or status (some a) = ok a

-- `if test { return err(status) }`
abbrev pub refuse_if : Bool → ℕ → HandlerResult (Unit {0})
refuse_if true status = err status
refuse_if false status = ok tt

pub refuse_if-eq-ok :
    (test : Bool) (status : ℕ) {u : Unit {0}} → refuse_if test status ≡ ok u → test ≡ false
refuse_if-eq-ok true status h = cc
refuse_if-eq-ok false status h = refl

module _ {ℓ κ} {A : Type ℓ} {B : Type κ} where
  -- Both parts of a successful chain succeeded.
  pub bind-eq-ok :
      (m : HandlerResult A) (f : A → HandlerResult B) {b : B}
      → (m >>= f) ≡ ok b
      → (a : A) × (m ≡ ok a) × (f a ≡ ok b)
  bind-eq-ok (ok a) f h = (a, refl, h)
  bind-eq-ok (err status) f h = cc

  -- The same, to go on with.
  pub bind_then {μ} :
      {C : Type μ} (m : HandlerResult A) (f : A → HandlerResult B) {b : B}
      → (m >>= f) ≡ ok b
      → ((a : A) → m ≡ ok a → f a ≡ ok b → C)
      → C
  bind_then (ok a) f h next = next a refl h
  bind_then (err status) f h next = cc

module _ {ℓ} {A : Type ℓ} where
  pub ok-injective : {a b : A} → ok a ≡ ok b → a ≡ b
  ok-injective h = cc

  pub ok_or-eq-ok : (status : ℕ) (o : Option A) {a : A} → ok_or status o ≡ ok a → o ≡ some a
  ok_or-eq-ok status none h = cc
  ok_or-eq-ok status (some a) h = cc h
