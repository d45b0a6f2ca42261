-- ===== src/Core.antt =====
-- sdk/packages/core
pub mod Field
pub mod Packages
pub mod Poseidon
pub mod HashBytes
pub mod Note
pub mod Encrypt
pub mod Scanner
pub mod Disclosure
