-- ===== src/Tests.antt =====
-- The theorems at concrete values.
pub mod Book
pub mod Engine
pub mod Parts
pub mod Positions
pub mod Concurrent
pub mod Risk
pub mod Analytics
pub mod Text
pub mod Tokens
