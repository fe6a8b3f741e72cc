-- ===== src/Training.antt =====
-- The training tools: scripts/training/phrase-extract/extract.cpp and symal/symal.cpp.
pub mod Extract
pub mod Symal
mod Examples
