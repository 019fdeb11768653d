-- ===== src/Path/Units.antt =====
-- `SmbPath::from_utf16` of path.rs: the UTF-16 units that it accepts.
use rust_smb_server.Prelude.{Option}
use rust_smb_server.Prelude.Text.{from_utf16 as string_from_utf16}
use mathlib.Core.Option
use rust_smb_server.Path.{from_utf16}
