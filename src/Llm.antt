-- ===== src/Llm.antt =====
-- The clients of language models: src/empiricist/llm.
pub mod Throttle
