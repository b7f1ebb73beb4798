-- ===== src/Imap.antt =====
-- crates/imap-proto and crates/imap: the wire format of IMAP and the server.
pub mod Flag
pub mod Response
pub mod Capability
pub mod List
pub mod MailboxStatus
pub mod Select
pub mod Sequence
pub mod Fetch
pub mod Command
pub mod Queue
pub mod Authenticate
pub mod Ops
pub mod Reader
pub mod Session
pub mod Operations
pub mod Serve
