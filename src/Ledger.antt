-- ===== src/Ledger.antt =====
-- The ledger (src/empiricist/ledger): its rows, its tables under transactions, and the
-- operations of the classes Ledger, Gates and Frontier.
pub mod Models
pub mod Tables
pub mod Artifacts
pub mod Evidence
pub mod Certifications
pub mod Claimed
pub mod Runs
pub mod Gates
pub mod Objective
pub mod Frontier
