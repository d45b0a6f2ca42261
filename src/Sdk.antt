-- ===== src/Sdk.antt =====
-- sdk/packages/sdk
pub mod Groth16
pub mod Prover
pub mod Wallet
pub mod Transaction
pub mod Deposit
pub mod Transfer
pub mod Withdraw
pub mod Envelopes
