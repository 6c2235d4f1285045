-- ===== src/Verifiers.antt =====
-- The verifiers: src/empiricist/verifiers.
pub mod Engines
pub mod Registry
pub mod Agreed
