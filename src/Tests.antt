-- ===== src/Tests.antt =====
-- The witnesses: the development's theorems at concrete inputs.
pub mod Samples
pub mod Ledger
pub mod Frontier
pub mod Queues
pub mod Campaign
pub mod Claims
pub mod Fusion
pub mod Verifiers
pub mod Store
pub mod Zx
