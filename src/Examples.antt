-- ===== src/Examples.antt =====
-- Tests, and a concrete instance of every theorem that has conditions.
pub mod Machine
pub mod Control
pub mod Nested
pub mod Stores
pub mod Scanning
pub mod Parsing
pub mod Compiling
