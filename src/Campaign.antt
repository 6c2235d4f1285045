-- ===== src/Campaign.antt =====
-- The campaign (src/empiricist/campaign).
pub mod Scheduler
pub mod State
