-- ===== src/Smtp.antt =====
-- crates/smtp: the SMTP server.
pub mod Data
pub mod Command
pub mod Session
pub mod Ehlo
pub mod Reader
pub mod Reading
pub mod Bdat
pub mod Message
pub mod Serve
