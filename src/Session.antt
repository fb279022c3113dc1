-- ===== src/Session.antt =====
-- The package session: persistent agents with turns, hosted tools and accounting.
pub mod Accounting
pub mod Host
pub mod Transcript
pub mod Turn
pub mod Health
pub mod Control
pub mod Loop
