-- ===== src/Libc.antt =====
-- The kernel's own C library, libc/.
pub mod Edit
pub mod Format
pub mod Join
pub mod Mem
pub mod Str
pub mod Strip
pub mod Token
