-- ===== src/Mocks/Load.antt =====
-- mocks/loader.go: the mocks that a test case names, from what its YAML decodes into.
pub mod Keys
pub mod Constraints
pub mod Definitions
pub mod Services
pub mod Fresh
pub mod Effect
pub mod Printed
pub mod RoundTrip
pub mod Allowed
pub mod Find
pub mod Replies
pub mod Denotes
