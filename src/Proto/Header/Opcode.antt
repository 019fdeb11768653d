-- ===== src/Proto/Header/Opcode.antt =====
-- The command codes of proto/header.rs. `#[brw(repr = u16)]` reads a code back by its number.
use rust_smb_server.Prelude.{ℕ, ◌==◌, if◌then◌else◌, ◌≡◌, ◌<◌, refl, Option, none, some, arith}

pub data Command : Type 0 where
  negotiate session_setup logoff tree_connect tree_disconnect create close flush : Command
  read write lock ioctl cancel echo query_directory change_notify query_info set_info : Command
  oplock_break : Command

unfoldable pub as_u16 : Command → ℕ
as_u16 negotiate = 0x0000
as_u16 session_setup = 0x0001
as_u16 logoff = 0x0002
as_u16 tree_connect = 0x0003
as_u16 tree_disconnect = 0x0004
as_u16 create = 0x0005
as_u16 close = 0x0006
as_u16 flush = 0x0007
as_u16 read = 0x0008
as_u16 write = 0x0009
as_u16 lock = 0x000a
as_u16 ioctl = 0x000b
as_u16 cancel = 0x000c
as_u16 echo = 0x000d
as_u16 query_directory = 0x000e
as_u16 change_notify = 0x000f
as_u16 query_info = 0x0010
as_u16 set_info = 0x0011
as_u16 oplock_break = 0x0012

unfoldable pub of_u16 : ℕ → Option Command
of_u16 n =
    if n == 0x0000
    then some negotiate
    else if n == 0x0001
    then some session_setup
    else if n == 0x0002
    then some logoff
    else if n == 0x0003
    then some tree_connect
    else if n == 0x0004
    then some tree_disconnect
    else if n == 0x0005
    then some create
    else if n == 0x0006
    then some close
    else if n == 0x0007
    then some flush
    else if n == 0x0008
    then some read
    else if n == 0x0009
    then some write
    else if n == 0x000a
    then some lock
    else if n == 0x000b
    then some ioctl
    else if n == 0x000c
    then some cancel
    else if n == 0x000d
    then some echo
    else if n == 0x000e
    then some query_directory
    else if n == 0x000f
    then some change_notify
    else if n == 0x0010
    then some query_info
    else if n == 0x0011
    then some set_info
    else if n == 0x0012
    then some oplock_break
    else none

pub of_u16-as_u16 : (c : Command) → of_u16 (as_u16 c) ≡ some c
unfolding of_u16 as_u16
of_u16-as_u16 negotiate = refl
of_u16-as_u16 c = refl

pub as_u16-lt : (c : Command) → as_u16 c < 19
unfolding as_u16
as_u16-lt negotiate = omega arith
as_u16-lt c = omega arith

-- A command code that is read is the code of the command it is read as.
pub of_u16_inv : (n : ℕ) (c : Command) → of_u16 n ≡ some c → as_u16 c ≡ n
unfolding of_u16 as_u16
of_u16_inv n c h = ground arith
