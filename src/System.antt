-- ===== src/System.antt =====
-- Sessions on the ledger: the requests, and the theorems about every sequence of them.
pub mod Requests
pub mod Frames
pub mod Effects
pub mod Claims
pub mod Evidence
pub mod Statuses
