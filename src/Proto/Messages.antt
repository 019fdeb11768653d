-- ===== src/Proto/Messages.antt =====
-- proto/messages/: the wire structs of the requests and responses, each in its own module.
pub mod Cancel
pub mod ChangeNotify
pub mod Close
pub mod Create
pub mod Echo
pub mod ErrorResponse
pub mod Flush
pub mod Ioctl
pub mod Lock
pub mod Logoff
pub mod Negotiate
pub mod OplockBreak
pub mod QueryDirectory
pub mod QueryInfo
pub mod Read
pub mod SessionSetup
pub mod SetInfo
pub mod TreeConnect
pub mod TreeDisconnect
pub mod Write
