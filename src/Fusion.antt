-- ===== src/Fusion.antt =====
-- The domain of fusion networks (P5): src/empiricist/domain/p5.
pub mod Graphs
pub mod Local
pub mod Orbit
pub mod Construction
pub mod Moves
