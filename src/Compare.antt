-- ===== src/Compare.antt =====
-- compare/compare.go: an expected document against an actual one.
pub mod Regex
pub mod Represent
pub mod Reading
pub mod Branch
pub mod Agrees
pub mod Parts
mod Children
pub mod Sound
pub mod Reflexive
pub mod Ordering
