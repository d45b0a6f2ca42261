-- ===== src/Client.antt =====
-- sdk/packages/client
pub mod MerkleTree
pub mod Events
pub mod PoolClient
pub mod Callers
