-- ===== src/Proto/Dialect.antt =====
-- `Dialect` of proto/messages/negotiate.rs, and `SigningAlgo` of proto/crypto/sign.rs.
use rust_smb_server.Prelude.{ℕ, ◌==◌, if◌then◌else◌, ◌≡◌, refl, Option, none, some, arith}

pub data Dialect : Type 0 where
  smb202 smb210 smb300 smb302 smb311 smb2_wildcard : Dialect

unfoldable pub from_u16 : ℕ → Option Dialect
from_u16 v =
    if v == 0x0202
    then some smb202
    else if v == 0x0210
    then some smb210
    else if v == 0x0300
    then some smb300
    else if v == 0x0302
    then some smb302
    else if v == 0x0311
    then some smb311
    else if v == 0x02ff
    then some smb2_wildcard
    else none

unfoldable pub as_u16 : Dialect → ℕ
as_u16 smb202 = 0x0202
as_u16 smb210 = 0x0210
as_u16 smb300 = 0x0300
as_u16 smb302 = 0x0302
as_u16 smb311 = 0x0311
as_u16 smb2_wildcard = 0x02ff

pub data SigningAlgo : Type 0 where
  hmac_sha256 aes_cmac : SigningAlgo

pub from_u16-as_u16 : (d : Dialect) → from_u16 (as_u16 d) ≡ some d
unfolding from_u16 as_u16
from_u16-as_u16 smb202 = refl
from_u16-as_u16 d = refl

pub from_u16_inv : (v : ℕ) (d : Dialect) → from_u16 v ≡ some d → as_u16 d ≡ v
unfolding from_u16 as_u16
from_u16_inv v d h = ground arith
