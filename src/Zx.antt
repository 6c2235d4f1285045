-- ===== src/Zx.antt =====
-- The pack of ZX diagrams: src/empiricist/packs/zx.
pub mod Diagrams
pub mod Termination
