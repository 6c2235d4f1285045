-- ===== src/Claims.antt =====
-- The claims of a repository (src/empiricist/claims).
pub mod Model
pub mod Graph
pub mod Standing
