-- ===== src/Users.antt =====
-- target_spw/passwordList.c: a doubly linked list of users, with a password and permissions each.
pub mod List
pub mod Permissions
pub mod Cycle
mod Tests
