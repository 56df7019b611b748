-- ===== src/Mocks.antt =====
-- mocks/: the services that a test replaces, what they answer and what they check.
pub mod Constraint
pub mod Definition
pub mod Calls
pub mod Accepts
pub mod Service
pub mod Resets
pub mod Isolation
pub mod Reported
pub mod Starting
pub mod Load
pub mod Tested
pub mod Errors
