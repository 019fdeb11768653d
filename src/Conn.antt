-- ===== src/Conn.antt =====
-- conn: the state of a connection, and what closes parts of it.
pub mod State
pub mod Close
pub mod Stream
