-- ===== src/Message.antt =====
-- src/ice/error.cpp: the texts of error codes.
pub mod Entries
pub mod Text
pub mod Category
pub mod Lowered
pub mod Trimmed
pub mod Lookup
pub mod Number
mod Examples
