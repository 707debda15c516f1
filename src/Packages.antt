-- ===== src/Packages.antt =====
-- The packages and library routines that the program calls, as interfaces: operations, and what the
-- code relies on as laws. None of them is under the repository's sources.
pub mod Json
pub mod Pool
pub mod HashMap
pub mod Posix
pub mod Sort
pub mod LruCache
pub mod Text
pub mod Files
