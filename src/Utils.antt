-- ===== src/Utils.antt =====
-- utils.rs: FILETIME, UTF-16LE and the wildcards of QUERY_DIRECTORY.
pub mod Wildcard
pub mod Time
