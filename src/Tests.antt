-- ===== src/Tests.antt =====
-- The theorems at concrete inputs.
mod Packages
mod CoreTests
mod ClientTests
mod RelayerTests
mod SdkTests
mod PaymentTests
mod DeployTests
mod ScanTests
mod PoolTests
mod CeremonyTests
