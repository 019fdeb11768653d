-- ===== src/Lib.antt =====
-- A verification library of the SMB 2/3 server in src/.
--
-- The program. An SMB client connects over TCP. conn/ frames the byte stream and keeps the tables of
-- the connection: sessions, the trees of a session, the open files of a tree. proto/ reads and writes
-- the messages, handlers/ answers each command, and server.rs holds what connections share: users,
-- shares with their ACLs, and the live connections, all of which ConfigHandle changes at run time.
-- A share's files are behind the traits of backend.rs.
--
-- The files, with the code that each is about (paths below src/):
--   Prelude, Prelude/*   shared names, Boolean tests, lists, bit masks, bytes, association lists for
--                        HashMap, and the part of str and char that the code uses
--   Ntstatus, Error      ntstatus.rs; error.rs (SmbError, to_nt_status)
--   Proto/Wire           the binrw crate as a parameter: reading and writing little-endian integers
--   Proto/Error          proto/error.rs
--   Proto/Framing        proto/framing.rs (encode_frame, decode_frame_header)
--   Proto/Header         proto/header.rs: parse is Smb2Header::parse, write is Smb2Header::write; Raw
--                        is RawHeader, Opcode is Command
--   Proto/Layout         what binrw derives for a struct: its fields in order, with counts
--   Proto/Messages/*     proto/messages/: the wire structs, one module for each file; Negotiate/Contexts
--                        is parse_list and encode_list of NegotiateContext, Create/Contexts is
--                        parse_chain and encode_chain of CreateContext
--   Proto/Sign, Kdf      proto/crypto/sign.rs; proto/crypto/kdf.rs and preauth.rs
--   Proto/Dialect        Dialect of proto/messages/negotiate.rs, SigningAlgo of proto/crypto/sign.rs
--   Proto/FileId         FileId of proto/messages/create.rs
--   Path                 path.rs: parse_components, join, parent, file_name, display_backslash
--   Utils                utils.rs: the wildcard matcher and the conversion to FILETIME
--   Backend, Access      backend.rs; Access, ShareMode, ShareAcl, Identity and authorize
--   Conn/State, Close    conn/state.rs: the tables, and the operations that close their entries
--   Conn/Stream          conn/reader.rs and conn/writer.rs over the bytes of a stream
--   Server/State, Config server.rs: the shared tables, and the operations of ConfigHandle
--   Server/Builder       builder.rs: Share, SmbServerBuilder and build
--   Server/Admitted      who has a tree, and what the operations of ConfigHandle do to it; Closed is
--                        what remove_user and revoke_share_user leave behind
--   Handlers/*           handlers/: shared.rs, tree_connect.rs, tree_disconnect.rs, logoff.rs,
--                        session_setup.rs, read.rs, write.rs, flush.rs, close.rs, negotiate.rs; Small is
--                        echo.rs, lock.rs, change_notify.rs, oplock_break.rs and ioctl.rs, and Replies
--                        the bodies of the responses that carry data
--   Dispatch             dispatch.rs: verify_request_signature and build_response_bytes; One is
--                        dispatch_one, Compound the loop of dispatch_frame with stitch_responses, Smb1
--                        handle_smb1_multi_protocol
--   System               the server as a step relation, and the states that it reaches
--   Witnesses            the theorems at concrete inputs, and tests
--
-- How the code is read. Operations run one at a time: a lock or an Arc is not a part of the model, a
-- change is written back into the table it was read from, and async is left out. Races between lock
-- sections of two operations are not modelled. The world of Storage is all files behind all
-- backends; its operations are arguments. A string is the list of its code points, a byte a number
-- below 256, and counters wrap as the atomics do. The handlers of tree_connect.rs, session_setup.rs,
-- read.rs, write.rs, flush.rs and close.rs take the decoded request. Token checking is the record
-- Ntlm, an argument; MACs and SHA-512 are the records Macs and Digest. The dispatcher takes
-- dispatch_command as an argument, and a type W for what is outside the connection (the shared state
-- of the server and the storage): what a request changes there is handed to the next one, and the
-- theorems hold for every W and every router. Dispatch/Compound/Related and Requests read a frame as
-- requests, each of them with the ids that it takes over, instead of as bytes.
--
-- Fuel. The wildcard loop has (|pattern| + 1) * |name| + |pattern| + 1 rounds: each shortens the
-- pattern, or the name behind the last star. The reader's loop needs one round more than the stream
-- has bytes, since a frame has at least the four bytes of its header. The loop over the requests of a
-- frame needs one round more than the frame has bytes, and so does the loop over a chain of CREATE
-- contexts. All four are proved enough.
--
-- Not modelled: sockets, tasks and channels, tracing, dispatch_command, NTLM and SPNEGO, CREATE, queries,
-- SET_INFO, and the backend on the local file system.
pub mod Prelude
pub mod Ntstatus
pub mod Error
pub mod Proto
pub mod Path
pub mod Utils
pub mod Backend
pub mod Access
pub mod Conn
pub mod Server
pub mod Handlers
pub mod Dispatch
pub mod System
pub mod Witnesses
