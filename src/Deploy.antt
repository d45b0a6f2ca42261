-- ===== src/Deploy.antt =====
-- The deploy tool, deploy/src.
pub mod Node
pub mod Gates
pub mod Config
pub mod Sandbox
pub mod Run
pub mod Cli
pub mod Keys
pub mod Safety
