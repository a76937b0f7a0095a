-- ===== src/Session.antt =====
-- sata/sata_main.c: the authentication of a host, the access check and the main loop.
pub mod State
pub mod Buffers
pub mod Strings
pub mod Authentication
pub mod MainLoop
pub mod Quiet
pub mod Transitions
pub mod Rounds
pub mod Access
pub mod Runs
pub mod Permissions
pub mod Protocol
mod Tests
mod Examples
