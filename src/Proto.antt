-- ===== src/Proto.antt =====
-- proto: the wire layer, its errors, and the parameters that stand for binrw.
pub mod Error
pub mod Wire
pub mod Framing
pub mod Header
pub mod Dialect
pub mod FileId
pub mod Sign
pub mod Kdf
pub mod Layout
pub mod Messages
