-- ===== src/Search.antt =====
-- The search (src/empiricist/search).
pub mod Population
pub mod Stall
