-- ===== src/Tests.antt =====
-- The modules of the library at concrete inputs.
mod Combinators
mod Samples
mod Data
mod Command
mod Session
mod Auth
mod Flags
mod Imap
mod Ehlo
mod Operations
mod Serve
mod Listener
mod Delivery
mod Bdat
